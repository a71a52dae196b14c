-- ===== src/Discovery/Icmp.antt =====
-- core/core/services/device_discovery/icmp: IcmpDeviceDiscoveryTask.h and
-- IcmpDeviceDiscoveryTask.cpp, the discovery task that pings.
use cpp_grcp_testground.Prelude.{
  ℕ, ◌≡◌, refl, true, false, none, some, List, if◌then◌else◌, Str, ok, err, arith, ◌∙◌,
}
use cpp_grcp_testground.Prelude.ErrorType.{timed_out}
use cpp_grcp_testground.Prelude.Map.{lookup, same}
use cpp_grcp_testground.Prelude.Strings.{str_order}
use cpp_grcp_testground.Util.Promises.{ready}
use cpp_grcp_testground.Models.Time.{has_passed, pos, milliseconds_between}
use cpp_grcp_testground.Net.IPv4Address.{IPv4Address, from_pcpp, to_string}
use cpp_grcp_testground.Net.MacAddress
use cpp_grcp_testground.Net.MacAddress.{MacAddress, broadcast}
use cpp_grcp_testground.Net.Packet.{Packet}
use cpp_grcp_testground.Net.Scanner.{
  Scanner, Request, PingResult, IcmpResponse, IcmpError, Interface, Moment, ReceivedPacket, Frame,
  EthHeader, IPv4Header, ping_async, start_scanning, stop_scanning, on_packet_received,
  response_from, handle_timeouts,
}
use cpp_grcp_testground.Net.Scanner.Requests.{IsConsistent, on_packet_received-answers}
use cpp_grcp_testground.Net.Scanner.Timeouts.{handle_timeouts-expire}
use cpp_grcp_testground.Async.Task.{end_task}
use cpp_grcp_testground.Async.FutureResolver.{FutureResolver, run}
use cpp_grcp_testground.Discovery.Task.{
  DeviceDiscoveryTask, TaskSuccess, TaskError, add_success, add_error, get_result, add-get_result,
}

-- `IcmpDeviceDiscoveryTask`: the task it is, and its scanner.
pub record IcmpDeviceDiscoveryTask {ℓ} (W : Type ℓ) : Type ℓ where
  pub base : DeviceDiscoveryTask W
  pub icmp_scanner : Scanner

-- What the task is told of a response; source and destination change places.
abbrev pub success_from : ℕ → IcmpResponse → TaskSuccess
success_from now response = record {
  src_ip = response.dst_ip;
  src_mac = some response.dst_mac;
  dst_ip = response.src_ip;
  dst_mac = some response.src_mac;
  ttl = response.ttl;
  response_time = response.response_time;
  completed_at = now;
}

abbrev pub error_from : ℕ → IcmpError → TaskError
error_from now error = record { dst_ip = error.dst_ip; completed_at = now }

module _ {ℓ} {W : Type ℓ} (decimal : ℕ → Str) where
  -- `IcmpPingResolver::onCompletion`
  abbrev pub on_completion : ℕ → PingResult → DeviceDiscoveryTask W × W → DeviceDiscoveryTask W × W
  on_completion now (ok response) (t, world) =
      add_success decimal response.dst_ip (success_from now response) t world
  on_completion now (err error) (t, world) =
      add_error decimal error.dst_ip (error_from now error) t world

  -- `IcmpPingResolver::onException` only logs.
  abbrev pub on_exception : DeviceDiscoveryTask W × W → DeviceDiscoveryTask W × W
  on_exception state = state

  -- The resolver; its delay is the default of `FutureResolver`. Its callbacks do not throw here (the
  -- second part of the outcome is `false`), as those that the program gives to the task do not.
  abbrev pub icmp_ping_resolver : ℕ → FutureResolver PingResult (DeviceDiscoveryTask W × W)
  icmp_ping_resolver now = record {
    on_completion = λ result state. (on_completion now result state, false);
    on_exception = on_exception;
    retry_delay = 1000;
  }

module _ {ℓ} {W : Type ℓ} where
  unfoldable pub start : IcmpDeviceDiscoveryTask W → IcmpDeviceDiscoveryTask W
  start t = record t { icmp_scanner = start_scanning t.icmp_scanner }

  unfoldable pub stop : IcmpDeviceDiscoveryTask W → IcmpDeviceDiscoveryTask W
  stop t = record t { icmp_scanner = stop_scanning t.icmp_scanner }

  module _ (decimal hex : ℕ → Str) (iface : Interface) where
    -- `createPingResolver` pings. The resolver is known by the number of the future it waits for.
    unfoldable pub create_ping_resolver :
        IPv4Address
        → MacAddress
        → Moment
        → IcmpDeviceDiscoveryTask W
        → (ℕ × Packet) × IcmpDeviceDiscoveryTask W
    create_ping_resolver ip mac m t =
        let sent = ping_async decimal hex iface ip mac m t.icmp_scanner in
        ((t.icmp_scanner.futures.next, sent.1), record t { icmp_scanner = sent.0 })

    -- `discover`; the resolver is then posted to the default runner.
    unfoldable pub discover :
        IPv4Address → Moment → IcmpDeviceDiscoveryTask W → (ℕ × Packet) × IcmpDeviceDiscoveryTask W
    discover host m t = create_ping_resolver host broadcast m t

abbrev pub unused : ℕ → IPv4Address → TaskSuccess
unused now ip = record {
  src_ip = ip;
  src_mac = none;
  dst_ip = ip;
  dst_mac = none;
  ttl = 0;
  response_time = pos 0;
  completed_at = now;
}

module _ {ℓ} {W : Type ℓ} (decimal : ℕ → Str) where
  -- A ping that is answered, all the way: once a frame from an address with a pending request has
  -- been received, and requests and futures agreed before, the run of the resolver of that request
  -- ends, if the callback of the task does not throw. The task then has, as the result of the address
  -- that the frame was sent to, a success from that address to the sender of the frame, with the
  -- frame's hardware addresses exchanged in the same way, its time to live and the milliseconds from
  -- the ping to its arrival; an address that is written differently from the one that the frame was
  -- sent to keeps its result, the sender that was pinged included.
  pub answered-get_result :
      (parse : List ℕ → Frame) (packet : ReceivedPacket) (e : EthHeader) (i : IPv4Header)
      (request : Request) (s : Scanner) (now : ℕ) (other : IPv4Address) (t : DeviceDiscoveryTask W)
      (world : W)
      → IsConsistent s
      → (parse packet.bytes).eth_layer ≡ some e
      → (parse packet.bytes).ipv4_layer ≡ some i
      → lookup (to_string decimal (from_pcpp i.source)) s.pending_requests ≡ some request
      → let s' = on_packet_received decimal parse packet s in
        let ran =
          run (icmp_ping_resolver decimal now) (s'.futures.state request.promise) (t, world) in
        let own = to_string decimal (from_pcpp i.dest) in
        (ran.1 ≡ end_task)
        × (get_result decimal other ran.0.0 ≡ (
            if same (to_string decimal other) own
            then some (
                ok (record {
                  src_ip = from_pcpp i.dest;
                  src_mac = some (MacAddress.from_pcpp e.dest);
                  dst_ip = from_pcpp i.source;
                  dst_mac = some (MacAddress.from_pcpp e.source);
                  ttl = i.time_to_live;
                  response_time = milliseconds_between packet.arrival request.time;
                  completed_at = now;
                }))
            else get_result decimal other t))
  answered-get_result parse packet e i request s now other t world c pe pi pending =
      let answer = response_from packet.arrival e i request in
      let (kept, taken, state) =
        on_packet_received-answers decimal parse packet e i request s (to_string decimal other)
          request.promise c pe pi pending in
      let is_ready : (on_packet_received decimal parse packet s).futures.state request.promise
          ≡ ready (ok answer) =
        state ∙ ground arith in
      rw is_ready (
        refl,
        (add-get_result decimal answer.dst_ip other (success_from now answer)
            (record { dst_ip = other; completed_at = now }) t world).2,
      )

  -- A ping that is not answered, all the way: once `handleTimeouts` has found a pending request that
  -- was sent five seconds ago or earlier, the run of its resolver ends, and the task then has an
  -- error as the result of the address that was pinged; addresses that are written differently keep
  -- their results.
  pub timed_out-get_result :
      (k : Str) (request : Request) (s : Scanner) (clock now : ℕ) (other : IPv4Address)
      (t : DeviceDiscoveryTask W) (world : W)
      → IsConsistent s
      → lookup k s.pending_requests ≡ some request
      → has_passed clock request.time 5 ≡ true
      → let s' = handle_timeouts clock s in
        let ran =
          run (icmp_ping_resolver decimal now) (s'.futures.state request.promise) (t, world) in
        (ran.1 ≡ end_task)
        × (get_result decimal other ran.0.0 ≡ (
            if same (to_string decimal other) (to_string decimal request.dst_ip)
            then some (err (record { dst_ip = request.dst_ip; completed_at = now }))
            else get_result decimal other t))
  timed_out-get_result k request s clock now other t world c pending old =
      let error : IcmpError = record { dst_ip = request.dst_ip; error = timed_out } in
      let (kept, taken, state) = handle_timeouts-expire clock s k request c pending in
      let is_ready : (handle_timeouts clock s).futures.state request.promise ≡ ready (err error) =
        state ∙ ground arith in
      rw is_ready (
        refl,
        (add-get_result decimal request.dst_ip other (unused now other) (error_from now error) t
            world).3,
      )
