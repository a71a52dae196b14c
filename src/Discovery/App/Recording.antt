-- ===== src/Discovery/App/Recording.antt =====
-- app/main.cpp and app/MyIcmpDeviceDiscoveryTask.cpp: the way of a host from its discovery to the
-- repository of devices.
use cpp_grcp_testground.Prelude.{
  ℕ, ◌==◌, ◌||◌, not, ◌≡◌, ◌∙◌, refl, some, List, Str, if◌then◌else◌, ok, err, ErrorType, arith,
}
use cpp_grcp_testground.Prelude.Map.{Order, lookup, has, same, same_refl}
use cpp_grcp_testground.Prelude.Strings.{str_order}
use cpp_grcp_testground.Util.Promises.{ready}
use cpp_grcp_testground.Models.Time.{Milliseconds, milliseconds_between}
use cpp_grcp_testground.Net.IPv4Address
use cpp_grcp_testground.Net.IPv4Address.{IPv4Address}
use cpp_grcp_testground.Net.MacAddress
use cpp_grcp_testground.Net.MacAddress.{MacAddress}
use cpp_grcp_testground.Net.Scanner.{
  Scanner, Interface, Moment, Frame, EthHeader, IPv4Header, ReceivedPacket, Request, ping_async,
  on_packet_received, response_from,
}
use cpp_grcp_testground.Net.Scanner.Requests.{
  IsConsistent, ping_async-request, on_packet_received-answers,
}
use cpp_grcp_testground.Async.Task.{end_task}
use cpp_grcp_testground.Async.FutureResolver.{run}
use cpp_grcp_testground.Repo.DeviceRepository.{DevicePtr, read, find}
use cpp_grcp_testground.Discovery.Task.{DeviceDiscoveryTask, add_success}
use cpp_grcp_testground.Discovery.Icmp.{
  IcmpDeviceDiscoveryTask, create_ping_resolver, icmp_ping_resolver, success_from,
}
use cpp_grcp_testground.Discovery.App.{
  World, discover, known_mac, on_device_pinged, on_device_pinged-read,
}

module _ (decimal hex : ℕ → Str) (iface : Interface) where
  -- After a host was pinged, a frame from it makes the future of the ping ready.
  answer-ready :
      (parse : List ℕ → Frame) (packet : ReceivedPacket) (e : EthHeader) (i : IPv4Header)
      (mac : MacAddress) (m : Moment) (s : Scanner)
      → IsConsistent s
      → (parse packet.bytes).eth_layer ≡ some e
      → (parse packet.bytes).ipv4_layer ≡ some i
      → let host = IPv4Address.from_pcpp i.source in
        let request : Request = record { dst_ip = host; promise = s.futures.next; time = m.now } in
        (on_packet_received decimal parse packet
            (ping_async decimal hex iface host mac m s).0).futures.state
          s.futures.next
        ≡ ready (ok (response_from packet.arrival e i request))
  answer-ready parse packet e i mac m s c pe pi =
      let host = IPv4Address.from_pcpp i.source in
      let key = IPv4Address.to_string decimal host in
      let request : Request = record { dst_ip = host; promise = s.futures.next; time = m.now } in
      let (kept, entered, waits) =
        ping_async-request decimal hex iface host mac m s key s.futures.next c in
      let pending : lookup key (ping_async decimal hex iface host mac m s).0.pending_requests
          ≡ some request =
        entered ∙ ground (arith, same_refl key) in
      (on_packet_received-answers decimal parse packet e i request
        (ping_async decimal hex iface host mac m s).0 key s.futures.next kept pe pi pending).2
      ∙ ground arith

  module _ ⦃o : Order MacAddress⦄ where
    -- A host is discovered, all the way, where requests and futures agree and hardware addresses are
    -- compared by a strict weak order that answers alike every time: the task pings it, a frame from it
    -- is received, and the resolver of the ping runs, whatever other results the task `t'` has by then
    -- and whatever the devices `world'` are. The resolver ends, and the repository has a device under
    -- the hardware address of the frame, with the time from the ping to the frame as its response time:
    -- the device that was there before, or a new one with the addresses of the frame. No other device
    -- has changed, and every other hardware address has the entry in the repository that it had.
    pub discover-recorded :
        (memory : Milliseconds) (m : Moment) (world world' : World)
        (t : IcmpDeviceDiscoveryTask World) (t' : DeviceDiscoveryTask World)
        (parse : List ℕ → Frame) (packet : ReceivedPacket) (e : EthHeader) (i : IPv4Header)
        (now : ℕ) (q : DevicePtr) (k : MacAddress)
        → IsConsistent t.icmp_scanner
        → t'.on_device_pinged ≡ some (on_device_pinged memory)
        → (parse packet.bytes).eth_layer ≡ some e
        → (parse packet.bytes).ipv4_layer ≡ some i
        → let host = IPv4Address.from_pcpp i.source in
          let mac = MacAddress.from_pcpp e.source in
          let sent = discover decimal hex iface host m world t in
          let s = on_packet_received decimal parse packet sent.1.icmp_scanner in
          let ran = run (icmp_ping_resolver decimal now) (s.futures.state sent.0.0) (t', world') in
          let w = ran.0.1 in
          let known = has mac world'.devices in
          (ran.1 ≡ end_task)
          × (device : DevicePtr) × (read mac w.devices ≡ ok device)
          × (read mac world'.devices ≡ (if known then ok device else err ErrorType.not_found))
          × ((w.store device).response_time ≡ milliseconds_between packet.arrival m.now)
          × ((w.store device).mac_address
              ≡ (if known then (world'.store device).mac_address else mac))
          × ((w.store device).ip_address
              ≡ (if known then (world'.store device).ip_address else host))
          × (w.store q ≡ (if q == device then w.store device else world'.store q))
          × (lookup k w.devices
              ≡ (if known || not (same k mac) then lookup k world'.devices else some device))
    unfolding discover create_ping_resolver add_success
    discover-recorded memory m world world' t t' parse packet e i now q k c callback pe pi =
        let host = IPv4Address.from_pcpp i.source in
        let is_ready =
          answer-ready parse packet e i
            (known_mac world.store (find host world.store world.devices)) m t.icmp_scanner c pe
            pi in
        let request : Request = record {
          dst_ip = host;
          promise = t.icmp_scanner.futures.next;
          time = m.now;
        } in
        let success = success_from now (response_from packet.arrival e i request) in
        let (device, there, before, time, mac, ip, others, entries) =
          on_device_pinged-read memory success (MacAddress.from_pcpp e.source) world' q k refl in
        rw (is_ready, callback) (refl, device, there, before, time, mac, ip, others, entries)
