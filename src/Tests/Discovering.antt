-- ===== src/Tests/Discovering.antt =====
-- Discovery on concrete answers and ranges.
use cpp_grcp_testground.Prelude.{
  ℕ, ◌≡◌, ◌<◌, ◌+◌, ◌%◌, ◌^◌, refl, Bool, true, false, Option, none, some, List, [], ◌∷◌, ok, err,
  arith,
}
use cpp_grcp_testground.Net.IPv4Address.{IPv4Address, IsValid, to_int}
use cpp_grcp_testground.Net.Scanner.{on_packet_received}
use cpp_grcp_testground.Async.FutureResolver.{run}
use cpp_grcp_testground.Util.Sequence.Walk.{distance}
use cpp_grcp_testground.Discovery.Task.{DeviceDiscoveryTask, get_result}
use cpp_grcp_testground.Discovery.Icmp.{icmp_ping_resolver, answered-get_result}
use cpp_grcp_testground.Discovery.Service.{discover_range}
use cpp_grcp_testground.Discovery.Service.Recording.{recording, handed, calls, discover_range-calls}
use cpp_grcp_testground.Tests.Data.{
  decimal, host, own, parse, reply, eth_header, ip_header, request, pinged, pinged-IsConsistent,
  pinged-pending, host-IsValid, own-IsValid,
}
use cpp_grcp_testground.Prelude.Strings.{str_order}

-- A task whose callbacks count.
abbrev task : DeviceDiscoveryTask ℕ
task = record {
  results = [];
  on_device_pinged = some (λ result n. n + 1);
  on_ping_failed = some (λ error n. n + 100);
}

-- The host that was pinged has no result, after its answer.
answered-get_result_example :
    get_result decimal host
      (run
        (icmp_ping_resolver decimal 7)
        ((on_packet_received decimal parse reply pinged).futures.state request.promise)
        (task, 0)).0.0
    ≡ get_result decimal host task
unfolding cpp_grcp_testground.Net.IPv4Address.from_pcpp
    cpp_grcp_testground.Net.IPv4Address.to_string cpp_grcp_testground.Prelude.Strings.str_less
answered-get_result_example =
    (answered-get_result decimal parse reply eth_header ip_header request pinged 7 host task 0
      pinged-IsConsistent refl refl pinged-pending).1

few : distance (2 ^ 32) (to_int host) ((to_int own + 1) % 2 ^ 32) < 9
unfolding to_int
few = omega arith

-- Two tasks that count the addresses that they are handed.
abbrev count : ℕ → IPv4Address → ℕ → ℕ
count name ip n = n + 1

discover_range-calls_example :
    (ips : List IPv4Address) × (discover_range
        (recording count)
        9
        host
        own
        ((1, 0) ∷ (2, 0) ∷ [])
        []
      ≡ some (
        (1, handed count 1 ips 0) ∷ (2, handed count 2 ips 0) ∷ [],
        calls count ips (1 ∷ 2 ∷ []),
      ))
discover_range-calls_example =
    let r =
      discover_range-calls count 9 host own ((1, 0) ∷ (2, 0) ∷ []) [] host-IsValid own-IsValid
        few in
    (r.0, r.1)
