-- ===== src/Tests/Devices.antt =====
-- The repository of devices, and what the program does with an answer.
use cpp_grcp_testground.Prelude.{◌≡◌, refl, none, some, [], ◌∷◌, ok}
use cpp_grcp_testground.Models.Time.{pos}
use cpp_grcp_testground.Models.Device.{new_device}
use cpp_grcp_testground.Repo.DeviceRepository.{DevicePtr, Store, Devices, read}
use cpp_grcp_testground.Repo.DeviceRepository.Contract.{
  create_call, read_call, remove_call, perform_all, promise_all, view, perform_all-promise,
}
use cpp_grcp_testground.Discovery.Task.{DeviceDiscoveryTask}
use cpp_grcp_testground.Discovery.App.{World, discover, on_device_pinged}
use cpp_grcp_testground.Discovery.App.Recording.{discover-recorded}
use cpp_grcp_testground.Discovery.Icmp.{IcmpDeviceDiscoveryTask, icmp_ping_resolver}
use cpp_grcp_testground.Async.Task.{end_task}
use cpp_grcp_testground.Async.FutureResolver.{run}
use cpp_grcp_testground.Net.Scanner.{on_packet_received}
use cpp_grcp_testground.Net.IPv4Address
use cpp_grcp_testground.Net.MacAddress
use cpp_grcp_testground.Tests.Data.{
  host, mac, other_mac, by_number, decimal, hex, iface, moment, idle, idle-IsConsistent, parse,
  reply, eth_header, ip_header,
}

abbrev store : Store
store _ = new_device (pos 0) host mac

abbrev devices : Devices
devices = (mac, 4) ∷ []

perform_all-promise_example :
    (perform_all ⦃o = by_number⦄
      (create_call mac 1 ∷ create_call mac 2 ∷ read_call other_mac ∷ remove_call mac ∷ [])
      []).0
    ≡ (promise_all ⦃o = by_number⦄
        (create_call mac 1 ∷ create_call mac 2 ∷ read_call other_mac ∷ remove_call mac ∷ [])
        (view ⦃o = by_number⦄ [])).0
perform_all-promise_example =
    (perform_all-promise ⦃o = by_number⦄
      (create_call mac 1 ∷ create_call mac 2 ∷ read_call other_mac ∷ remove_call mac ∷ []) []).0

abbrev pub world : World
world = record { store = store; devices = devices; next = 5 }

abbrev pub found : IcmpDeviceDiscoveryTask World
found = record {
  base = record { results = []; on_device_pinged = none; on_ping_failed = none };
  icmp_scanner = idle;
}

abbrev pub told : DeviceDiscoveryTask World
told = record {
  results = [];
  on_device_pinged = some (on_device_pinged ⦃o = by_number⦄ (pos 0));
  on_ping_failed = none;
}

discover-recorded_example :
    let sent =
      discover decimal hex iface (IPv4Address.from_pcpp ip_header.source) moment world found in
    let s = on_packet_received decimal parse reply sent.1.icmp_scanner in
    let ran = run (icmp_ping_resolver decimal 7) (s.futures.state sent.0.0) (told, world) in
    (ran.1 ≡ end_task)
    × (device : DevicePtr) × (read ⦃o = by_number⦄
          (MacAddress.from_pcpp eth_header.source)
          ran.0.1.devices
        ≡ ok device)
discover-recorded_example =
    let r =
      discover-recorded decimal hex iface ⦃o = by_number⦄ (pos 0) moment world world found told
        parse reply eth_header ip_header 7 4 other_mac idle-IsConsistent refl refl refl in
    (r.0, r.1, r.2)
