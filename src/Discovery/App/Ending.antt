-- ===== src/Discovery/App/Ending.antt =====
-- app/MyIcmpDeviceDiscoveryTask.cpp and the files of core/core that it stands on: that the discovery
-- of a host comes to a result.
use cpp_grcp_testground.Prelude.{
  ℕ, ◌+◌, ◌<◌, ◌≡◌, ◌∙◌, refl, ◌⊎◌, inl, inr, true, some, List, Str, if◌then◌else◌, ok, err, All,
  length,
}
use cpp_grcp_testground.Prelude.Map.{same, same_refl}
use cpp_grcp_testground.Prelude.Strings.{str_order}
use cpp_grcp_testground.Util.Promises.{Future}
use cpp_grcp_testground.Net.IPv4Address.{IPv4Address, to_string}
use cpp_grcp_testground.Net.MacAddress.{MacAddress}
use cpp_grcp_testground.Net.Scanner.{
  Scanner, PingResult, Interface, Moment, Frame, ReceivedPacket, Request, ping_async,
}
use cpp_grcp_testground.Net.Scanner.Requests.{IsConsistent, ping_async-request}
use cpp_grcp_testground.Net.Scanner.Settling.{
  Turn, arrivals, late_runs, Spares, take_turns, IsOutcome,
}
use cpp_grcp_testground.Net.Scanner.Settling.Outcome.{take_turns-IsOutcome}
use cpp_grcp_testground.Async.Task.{end_task}
use cpp_grcp_testground.Async.FutureResolver.{run}
use cpp_grcp_testground.Discovery.Task.{
  DeviceDiscoveryTask, TaskSuccess, TaskError, get_result, add-get_result,
}
use cpp_grcp_testground.Discovery.Icmp.{
  IcmpDeviceDiscoveryTask, create_ping_resolver, icmp_ping_resolver, success_from, unused,
}
use cpp_grcp_testground.Discovery.App.{World, discover, known_mac}
use cpp_grcp_testground.Repo.DeviceRepository.{find}

-- Under one address a task has a new result, in the place of what was there, and no other address
-- has another result than before: the result is an error of the host under the host's own address, or
-- a success from the host under the address that the answer was sent to.
abbrev pub HasResult {ℓ} :
    {W : Type ℓ}
    → (ℕ → Str)
    → ℕ
    → IPv4Address
    → DeviceDiscoveryTask W
    → DeviceDiscoveryTask W
    → Type 0
HasResult decimal now host before after =
    ((other : IPv4Address)
      → get_result decimal other after ≡ (
          if same (to_string decimal other) (to_string decimal host)
          then some (err (record { dst_ip = host; completed_at = now }))
          else get_result decimal other before))
    ⊎ ((success : TaskSuccess) × (to_string decimal success.dst_ip ≡ to_string decimal host)
        × ((other : IPv4Address)
            → get_result decimal other after ≡ (
                if same (to_string decimal other) (to_string decimal success.src_ip)
                then some (ok success)
                else get_result decimal other before)))

module _ {ℓ} {W : Type ℓ} (decimal : ℕ → Str) where
  -- A resolver that finds an outcome ends and stores it.
  outcome-HasResult :
      (now : ℕ) (request : Request) (f : Future PingResult) (t : DeviceDiscoveryTask W) (world : W)
      → IsOutcome decimal (to_string decimal request.dst_ip) request f
      → let ran = run (icmp_ping_resolver decimal now) f (t, world) in
        (ran.1 ≡ end_task) × HasResult decimal now request.dst_ip t ran.0.0
  outcome-HasResult now request f t world (inl (response, from_host, e)) =
      let success = success_from now response in
      let failure : TaskError = record { dst_ip = response.dst_ip; completed_at = now } in
      rw e (
        refl,
        inr (
          success,
          from_host,
          λ other. (add-get_result decimal response.dst_ip other success failure t world).2,
        ),
      )
  outcome-HasResult now request f t world (inr e) =
      let failure : TaskError = record { dst_ip = request.dst_ip; completed_at = now } in
      rw e (
        refl,
        inl λ other.
            (add-get_result decimal request.dst_ip other (unused now request.dst_ip) failure t
              world).3,
      )

module _ (decimal hex : ℕ → Str) (iface : Interface) where
  ping_async-running :
      (host : IPv4Address) (mac : MacAddress) (m : Moment) (s : Scanner)
      → (ping_async decimal hex iface host mac m s).0.running ≡ s.running
  unfolding ping_async
  ping_async-running host mac m s = refl

module _ {ℓ} {W : Type ℓ} (decimal hex : ℕ → Str) (iface : Interface) where
  -- The discovery of a host comes to a result. Where requests and futures agree, the scanner runs and
  -- the task pings the host, let packets come, other hosts be pinged and the polling task run, more
  -- often at times five seconds or more after the ping than packets wait or come. The resolver of the
  -- ping then ends at its next run, if the callbacks of the task do not throw, whatever results the
  -- task has by then, and leaves a new result: an error of the host, or a success from the host under
  -- the address that the answer was sent to. Every other address keeps its result.
  pub discover-HasResult :
      (parse : List ℕ → Frame) (host : IPv4Address) (m : Moment) (known : World) (turns : List Turn)
      (packets : List ReceivedPacket) (now : ℕ) (t : IcmpDeviceDiscoveryTask W)
      (t' : DeviceDiscoveryTask W) (world : W)
      → IsConsistent t.icmp_scanner
      → t.icmp_scanner.running ≡ true
      → All (Spares decimal (to_string decimal host)) turns
      → length packets + arrivals turns < late_runs m.now turns
      → let sent = discover decimal hex iface host m known t in
        let after = (take_turns decimal hex parse iface turns (sent.1.icmp_scanner, packets)).0 in
        let ran = run (icmp_ping_resolver decimal now) (after.futures.state sent.0.0) (t', world) in
        (ran.1 ≡ end_task) × HasResult decimal now host t' ran.0.0
  unfolding discover create_ping_resolver
  discover-HasResult parse host m known turns packets now t t' world c running spared enough =
      let key = to_string decimal host in
      let mac = known_mac known.store (find host known.store known.devices) in
      let s = t.icmp_scanner in
      let request : Request = record { dst_ip = host; promise = s.futures.next; time = m.now } in
      let (kept, entered, waits) = ping_async-request decimal hex iface host mac m s key 0 c in
      outcome-HasResult decimal now request _ t' world (
        take_turns-IsOutcome decimal hex parse iface turns
          (ping_async decimal hex iface host mac m s).0 packets key request kept
          (ping_async-running decimal hex iface host mac m s ∙ running)
          (entered ∙ rw (same_refl key) refl) spared enough)
