-- ===== src/Net/Scanner/Polling.antt =====
-- The runs of the task that polls the scanner, and any history of the scanner.
use cpp_grcp_testground.Prelude.{
  ℕ, zero, suc, ◌<◌, ◌≡◌, ◌⊎◌, inl, inr, refl, Bool, true, false, Option, none, some, List, [], ◌∷◌,
  Str, arith, length, ok, Option-cases,
}
use cpp_grcp_testground.Prelude.Map.{lookup}
use cpp_grcp_testground.Prelude.Strings.{str_order}
use cpp_grcp_testground.Util.Promises.Keeping.{set_value-Tracks}
use cpp_grcp_testground.Net.IPv4Address.{IPv4Address, from_pcpp, to_string}
use cpp_grcp_testground.Net.MacAddress.{MacAddress}
use cpp_grcp_testground.Net.Scanner.{
  Scanner, promise_of, Interface, Moment, Frame, EthHeader, IPv4Header, ReceivedPacket, poll,
  listen, ping_async, on_packet_received, receive, response_from, ping_timed_out, start_scanning,
  stop_scanning, has_pending_requests,
}
use cpp_grcp_testground.Net.Scanner.Requests.{
  IsConsistent, ping_async-request, ping_timed_out-erases,
}
use cpp_grcp_testground.Net.Scanner.Timeouts.{handle_timeouts-IsConsistent}
use cpp_grcp_testground.Async.Task.{Continuation, run_again, end_task, run_again_delayed}

-- What happens to a scanner: calls by its users, and runs of the polling task.
pub data Event : Type 0 where
  started stopped : Event
  pinged : IPv4Address → MacAddress → Moment → Event
  gave_up : IPv4Address → IPv4Address → Event
  polled : ℕ → List ReceivedPacket → Event

module _ (decimal hex : ℕ → Str) (parse : List ℕ → Frame) (iface : Interface) where
  abbrev pub happen : Event → Scanner → Scanner
  happen started s = start_scanning s
  happen stopped s = stop_scanning s
  happen (pinged host mac m) s = (ping_async decimal hex iface host mac m s).0
  happen (gave_up freed host) s = (ping_timed_out decimal freed host s).0
  happen (polled now packets) s = (poll decimal parse now packets s).0.0

  abbrev pub history : List Event → Scanner → Scanner
  history [] s = s
  history (e ∷ es) s = history es (happen e s)

-- What a run comes to, where `again` is what the runs after it come to.
abbrev settle :
    Option ((Scanner × List ReceivedPacket) × Continuation)
    → (Scanner × List ReceivedPacket) × Continuation
    → Option ((Scanner × List ReceivedPacket) × Continuation)
settle again (left, run_again) = again
settle again (left, end_task) = some (left, end_task)
settle again (left, run_again_delayed ms) = some (left, run_again_delayed ms)

abbrev pub is_at_once : Continuation → Bool
is_at_once run_again = true
is_at_once end_task = false
is_at_once (run_again_delayed _) = false

-- The runs have come to an end, and for one of the three reasons.
abbrev pub HasRested : Option ((Scanner × List ReceivedPacket) × Continuation) → Type 0
HasRested none = ⊥
HasRested (some ((s, left), answer)) =
    (is_at_once answer ≡ false)
    × ((s.running ≡ false) ⊎ ((has_pending_requests s ≡ false) ⊎ (left ≡ [])))

module _ (decimal : ℕ → Str) (parse : List ℕ → Frame) where
  receive-IsConsistent :
      (arrival : ℕ) (e : Option EthHeader) (i : Option IPv4Header) (s : Scanner)
      → IsConsistent s
      → IsConsistent (receive decimal arrival e i s)
  receive-IsConsistent arrival none i s c = c
  receive-IsConsistent arrival (some e) none s c = c
  receive-IsConsistent arrival (some e) (some i) s c =
      let key = to_string decimal (from_pcpp i.source) in
      elim (Option-cases (lookup key s.pending_requests)) [
        | inl absent ↦ rw absent c
        | inr (request, present) ↦ rw present (
            set_value-Tracks promise_of s.pending_requests s.futures key request
              (ok (response_from arrival e i request)) c present)
      ]

  on_packet_received-IsConsistent :
      (packet : ReceivedPacket) (s : Scanner)
      → IsConsistent s
      → IsConsistent (on_packet_received decimal parse packet s)
  unfolding on_packet_received
  on_packet_received-IsConsistent packet s c =
      let frame = parse packet.bytes in
      receive-IsConsistent packet.arrival frame.eth_layer frame.ipv4_layer s c

  listen-IsConsistent :
      (now : ℕ) (running pending : Bool) (packets : List ReceivedPacket) (s : Scanner)
      → IsConsistent s
      → IsConsistent (listen decimal parse now running pending packets s).0.0
  listen-IsConsistent now false pending packets s c = c
  listen-IsConsistent now true false packets s c = c
  listen-IsConsistent now true true [] s c = handle_timeouts-IsConsistent now s c
  listen-IsConsistent now true true (packet ∷ rest) s c = on_packet_received-IsConsistent packet s c

  poll-IsConsistent :
      (now : ℕ) (packets : List ReceivedPacket) (s : Scanner)
      → IsConsistent s
      → IsConsistent (poll decimal parse now packets s).0.0
  unfolding poll
  poll-IsConsistent now packets s c =
      listen-IsConsistent now s.running (has_pending_requests s) packets s c

  -- The runs that the task asks for at once, one after another; `none` is more of them than the fuel.
  unfoldable pub drain :
      ℕ
      → ℕ
      → List ReceivedPacket
      → Scanner
      → Option ((Scanner × List ReceivedPacket) × Continuation)
  drain zero now packets s = none
  drain (suc fuel) now packets s =
      let r = poll decimal parse now packets s in settle (drain fuel now r.0.1 r.0.0) r

  settle-HasRested :
      (fuel now : ℕ) (running pending : Bool) (packets : List ReceivedPacket) (s : Scanner)
      → s.running ≡ running
      → has_pending_requests s ≡ pending
      → length packets < suc fuel
      → ((rest : List ReceivedPacket) (s' : Scanner)
          → length rest < fuel
          → HasRested (drain fuel now rest s'))
      → let r = listen decimal parse now running pending packets s in
        HasRested (settle (drain fuel now r.0.1 r.0.0) r)
  settle-HasRested fuel now false pending packets s idle p h rests = (refl, inl idle)
  settle-HasRested fuel now true false packets s r done h rests = (refl, inr (inl done))
  settle-HasRested fuel now true true [] s r p h rests = (refl, inr (inr refl))
  settle-HasRested fuel now true true (packet ∷ rest) s r p h rests = rests rest _ (omega arith)

  -- The task asks for further runs at once for no longer than packets wait: with fuel for one run
  -- more than the packets there are, it ends, or asks for a delayed run. It stops because the scanner
  -- is not running, or no request is pending, or no packet is left.
  pub drain-rests :
      (fuel now : ℕ) (packets : List ReceivedPacket) (s : Scanner)
      → length packets < fuel
      → HasRested (drain fuel now packets s)
  unfolding drain poll
  drain-rests zero now packets s h = omega arith
  drain-rests (suc fuel) now packets s h =
      settle-HasRested fuel now s.running (has_pending_requests s) packets s refl refl h
        (drain-rests fuel now)

module _ (decimal hex : ℕ → Str) (parse : List ℕ → Frame) (iface : Interface) where
  happen-IsConsistent :
      (e : Event) (s : Scanner) → IsConsistent s → IsConsistent (happen decimal hex parse iface e s)
  unfolding start_scanning stop_scanning
  happen-IsConsistent started s c = c
  happen-IsConsistent stopped s c = c
  happen-IsConsistent (pinged host mac m) s c =
      (ping_async-request decimal hex iface host mac m s [] 0 c).0
  happen-IsConsistent (gave_up freed host) s c = (ping_timed_out-erases decimal freed host s c).0
  happen-IsConsistent (polled now packets) s c = poll-IsConsistent decimal parse now packets s c

  -- Whatever happens to a scanner whose requests and futures agree, they agree afterwards: a future
  -- waits if and only if it is that of a pending request.
  pub history-IsConsistent :
      (es : List Event) (s : Scanner)
      → IsConsistent s
      → IsConsistent (history decimal hex parse iface es s)
  history-IsConsistent [] s c = c
  history-IsConsistent (e ∷ es) s c = history-IsConsistent es _ (happen-IsConsistent e s c)
