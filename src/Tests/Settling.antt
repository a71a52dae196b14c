-- ===== src/Tests/Settling.antt =====
-- A ping among other pings, packets and runs of the polling task.
use cpp_grcp_testground.Prelude.{◌≡◌, refl, List, [], ◌∷◌, All, arith}
use cpp_grcp_testground.Prelude.Strings.{str_order, str_less}
use cpp_grcp_testground.Models.Time.{has_passed}
use cpp_grcp_testground.Net.IPv4Address.{to_string}
use cpp_grcp_testground.Net.Scanner.Settling.{
  Turn, arrived, ran, also_pinged, Spares, take_turns, IsOutcome,
}
use cpp_grcp_testground.Net.Scanner.Settling.Outcome.{take_turns-IsOutcome}
use cpp_grcp_testground.Async.Task.{end_task}
use cpp_grcp_testground.Async.FutureResolver.{run}
use cpp_grcp_testground.Discovery.Icmp.{icmp_ping_resolver}
use cpp_grcp_testground.Discovery.App.{discover}
use cpp_grcp_testground.Discovery.App.Ending.{HasResult, discover-HasResult}
use cpp_grcp_testground.Tests.Data.{
  decimal, hex, host, third, mac, iface, moment, idle-IsConsistent, pinged-IsConsistent,
  pinged-pending, request, parse, noise,
}
use cpp_grcp_testground.Tests.Data
use cpp_grcp_testground.Tests.Devices.{found, told, world}

-- Noise comes, the task runs too early, another host is pinged, and the task runs twice in time.
abbrev turns : List Turn
turns =
    arrived noise
    ∷ ran 2_000
    ∷ also_pinged third mac moment
    ∷ ran 6_000_000_000
    ∷ ran 7_000_000_000
    ∷ []

spared : All (Spares decimal (to_string decimal host)) turns
unfolding to_string str_less
spared = (tt, (tt, (refl, (tt, (tt, tt)))))

take_turns-IsOutcome_example :
    IsOutcome decimal
      (to_string decimal host)
      request
      ((take_turns decimal hex parse iface turns (Data.pinged, [])).0.futures.state 0)
unfolding has_passed cpp_grcp_testground.Net.Scanner.ping_async
take_turns-IsOutcome_example =
    take_turns-IsOutcome decimal hex parse iface turns Data.pinged [] (to_string decimal host)
      request pinged-IsConsistent refl pinged-pending spared (omega arith)

discover-HasResult_example :
    let sent = discover decimal hex iface host moment world found in
    let after = (take_turns decimal hex parse iface turns (sent.1.icmp_scanner, [])).0 in
    let ran = run (icmp_ping_resolver decimal 7) (after.futures.state sent.0.0) (told, world) in
    (ran.1 ≡ end_task) × HasResult decimal 7 host told ran.0.0
unfolding has_passed
discover-HasResult_example =
    discover-HasResult decimal hex iface parse host moment world turns [] 7 found told world
      idle-IsConsistent refl spared (omega arith)
