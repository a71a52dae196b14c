-- ===== src/Tests/Scanning.antt =====
-- The scanner on concrete packets.
use cpp_grcp_testground.Prelude.{◌≡◌, refl, List, [], ◌∷◌, ok, err, arith}
use cpp_grcp_testground.Prelude.ErrorType.{timed_out}
use cpp_grcp_testground.Prelude.Map.{lookup, insert}
use cpp_grcp_testground.Prelude.Strings.{str_order, str_less}
use cpp_grcp_testground.Util.Promises.{broken, ready}
use cpp_grcp_testground.Models.Time.{has_passed}
use cpp_grcp_testground.Net.IPv4Address.{to_string}
use cpp_grcp_testground.Net.Scanner.{ping_async, on_packet_received, handle_timeouts, response_from}
use cpp_grcp_testground.Net.Scanner.Requests.{
  IsConsistent, ping_async-request, on_packet_received-answers,
}
use cpp_grcp_testground.Net.Scanner.Timeouts.{handle_timeouts-expire}
use cpp_grcp_testground.Net.Scanner.Polling.{
  Event, stopped, pinged, polled, gave_up, history, history-IsConsistent, drain, drain-rests,
  HasRested,
}
use cpp_grcp_testground.Tests.Data.{
  decimal, hex, host, own, third, mac, iface, moment, idle, idle-IsConsistent, pinged-IsConsistent,
  pinged-pending, request, parse, reply, noise, eth_header, ip_header,
}
use cpp_grcp_testground.Tests.Data

abbrev events : List Event
events =
    pinged host mac moment
    ∷ polled 2_000 (reply ∷ [])
    ∷ pinged third mac moment
    ∷ gave_up own third
    ∷ polled 6_000_000_000 []
    ∷ stopped
    ∷ []

history-IsConsistent_example : IsConsistent (history decimal hex parse iface events idle)
history-IsConsistent_example =
    history-IsConsistent decimal hex parse iface events idle idle-IsConsistent

drain-rests_example : HasRested (drain decimal parse 3 2_000 (noise ∷ reply ∷ []) Data.pinged)
drain-rests_example =
    drain-rests decimal parse 3 2_000 (noise ∷ reply ∷ []) Data.pinged (omega arith)

-- A second ping of the same host breaks the future of the first.
ping_async-request_example :
    (ping_async decimal hex iface host mac moment Data.pinged).0.futures.state 0 ≡ broken
unfolding ping_async lookup insert str_less to_string
ping_async-request_example =
    (ping_async-request decimal hex iface host mac moment Data.pinged (to_string decimal host) 0
      pinged-IsConsistent).2

on_packet_received-answers_example :
    (on_packet_received decimal parse reply Data.pinged).futures.state 0
    ≡ ready (ok (response_from reply.arrival eth_header ip_header request))
unfolding cpp_grcp_testground.Net.IPv4Address.from_pcpp
on_packet_received-answers_example =
    (on_packet_received-answers decimal parse reply eth_header ip_header request Data.pinged
      (to_string decimal host) 0 pinged-IsConsistent refl refl pinged-pending).2

handle_timeouts-expire_example :
    (handle_timeouts 6_000_000_000 Data.pinged).futures.state 0
    ≡ ready (err (record { dst_ip = host; error = timed_out }))
unfolding has_passed
handle_timeouts-expire_example =
    (handle_timeouts-expire 6_000_000_000 Data.pinged (to_string decimal host) request
      pinged-IsConsistent pinged-pending).2
