-- ===== src/Net/Scanner/Settling.antt =====
-- That a ping is answered: the runs of the polling task, the packets that come in between, and the
-- pings of other hosts.
pub mod Pending
pub mod Outcome
use cpp_grcp_testground.Prelude.{
  ℕ, suc, ◌+◌, ◌<◌, ◌≡◌, ◌∙◌, refl, ◌⊎◌, Bool, inl, inr, true, false, List, [], ◌∷◌, ◌++◌, Str, ok,
  err, arith, if◌then◌else◌, Bool-cases, Option-cases,
}
use cpp_grcp_testground.Prelude.ErrorType.{timed_out}
use cpp_grcp_testground.Prelude.Map.{Map, lookup, same}
use cpp_grcp_testground.Prelude.Strings.{str_order}
use cpp_grcp_testground.Util.Promises.{Future, ready, waits}
use cpp_grcp_testground.Models.Time.{has_passed}
use cpp_grcp_testground.Net.IPv4Address.{IPv4Address, to_string}
use cpp_grcp_testground.Net.MacAddress.{MacAddress}
use cpp_grcp_testground.Net.Scanner.{
  Scanner, Request, PingResult, IcmpResponse, Interface, Moment, Frame, ReceivedPacket, poll,
  listen, ping_async, on_packet_received, handle_timeouts, sweep, has_pending_requests,
}
use cpp_grcp_testground.Net.Scanner.Timeouts.{remove}

-- What happens while a ping waits: a packet reaches the listener, the polling task runs at a time,
-- a host is pinged.
pub data Turn : Type 0 where
  arrived : ReceivedPacket → Turn
  ran : ℕ → Turn
  also_pinged : IPv4Address → MacAddress → Moment → Turn

-- The packets that come.
abbrev pub arrivals : List Turn → ℕ
arrivals [] = 0
arrivals (arrived packet ∷ turns) = suc (arrivals turns)
arrivals (ran now ∷ turns) = arrivals turns
arrivals (also_pinged host mac m ∷ turns) = arrivals turns

-- The runs that find a request of that time five seconds old or older.
abbrev pub late_runs : ℕ → List Turn → ℕ
late_runs time [] = 0
late_runs time (arrived packet ∷ turns) = late_runs time turns
late_runs time (ran now ∷ turns) = (if has_passed now time 5 then 1 else 0) + late_runs time turns
late_runs time (also_pinged host mac m ∷ turns) = late_runs time turns

-- The future holds a response from the address, or the error that the address has timed out.
abbrev pub IsOutcome : (ℕ → Str) → Str → Request → Future PingResult → Type 0
IsOutcome decimal k r f =
    ((response : IcmpResponse) × (to_string decimal response.src_ip ≡ k)
      × (f ≡ ready (ok response)))
    ⊎ (f ≡ ready (err (record { dst_ip = r.dst_ip; error = timed_out })))

module _ (decimal hex : ℕ → Str) (parse : List ℕ → Frame) (iface : Interface) where
  abbrev pub take_turn : Turn → Scanner × List ReceivedPacket → Scanner × List ReceivedPacket
  take_turn (arrived packet) (s, packets) = (s, packets ++ (packet ∷ []))
  take_turn (ran now) (s, packets) = (poll decimal parse now packets s).0
  take_turn (also_pinged host mac m) (s, packets) =
      ((ping_async decimal hex iface host mac m s).0, packets)

  abbrev pub take_turns : List Turn → Scanner × List ReceivedPacket → Scanner × List ReceivedPacket
  take_turns [] state = state
  take_turns (turn ∷ turns) state = take_turns turns (take_turn turn state)

-- No other ping is sent to the address.
abbrev pub Spares : (ℕ → Str) → Str → Turn → Type 0
Spares decimal k (arrived packet) = Unit
Spares decimal k (ran now) = Unit
Spares decimal k (also_pinged host mac m) = same k (to_string decimal host) ≡ false

-- Whatever else has changed, the scanner runs as before and has made no promise.
abbrev pub Continues : Scanner → Scanner → Type 0
Continues s s' = (s'.running ≡ s.running) × (s'.futures.next ≡ s.futures.next)

pub sweep-Continues :
    (now : ℕ) (rest : Map Str Request) (s : Scanner) → Continues s (sweep now rest s)
unfolding sweep
sweep-Continues now [] s = (refl, refl)
sweep-Continues now ((key, r) ∷ rest) s = elim (Bool-cases (has_passed now r.time 5)) [
  | inl old ↦
      let later = sweep-Continues now rest (remove key r s) in
      rw (old, sweep) (later.0, later.1 ∙ ground arith)
  | inr young ↦ rw (young, sweep) (sweep-Continues now rest s)
]

sweep-state :
    (now : ℕ) (rest : Map Str Request) (s : Scanner) (j : ℕ)
    → waits (s.futures.state j) ≡ false
    → (sweep now rest s).futures.state j ≡ s.futures.state j
unfolding sweep
sweep-state now [] s j h = refl
sweep-state now ((key, r) ∷ rest) s j h = elim (Bool-cases (has_passed now r.time 5)) [
  | inl old ↦
      let gone : (remove key r s).futures.state j ≡ s.futures.state j = ground arith in
      rw (old, sweep) (sweep-state now rest (remove key r s) j (rw gone h) ∙ gone)
  | inr young ↦ rw (young, sweep) (sweep-state now rest s j h)
]

module _ (decimal : ℕ → Str) (parse : List ℕ → Frame) where
  pub on_packet_received-Continues :
      (packet : ReceivedPacket) (s : Scanner)
      → Continues s (on_packet_received decimal parse packet s)
  unfolding on_packet_received
  on_packet_received-Continues packet s = (ground arith, ground arith)

  on_packet_received-state :
      (packet : ReceivedPacket) (s : Scanner) (j : ℕ)
      → waits (s.futures.state j) ≡ false
      → (on_packet_received decimal parse packet s).futures.state j ≡ s.futures.state j
  unfolding on_packet_received
  on_packet_received-state packet s j h = ground arith

  -- A future that does not wait is not changed by a run.
  listen-keeps :
      (now : ℕ) (running pending : Bool) (packets : List ReceivedPacket) (s : Scanner) (j : ℕ)
      → waits (s.futures.state j) ≡ false
      → let s' = (listen decimal parse now running pending packets s).0.0 in
        Continues s s' × (s'.futures.state j ≡ s.futures.state j)
  unfolding handle_timeouts
  listen-keeps now false pending packets s j h = ((refl, refl), refl)
  listen-keeps now true false packets s j h = ((refl, refl), refl)
  listen-keeps now true true [] s j h =
      (sweep-Continues now s.pending_requests s, sweep-state now s.pending_requests s j h)
  listen-keeps now true true (packet ∷ rest) s j h =
      (on_packet_received-Continues packet s, on_packet_received-state packet s j h)

  pub poll-keeps :
      (now : ℕ) (packets : List ReceivedPacket) (s : Scanner) (j : ℕ)
      → waits (s.futures.state j) ≡ false
      → let s' = (poll decimal parse now packets s).0.0 in
        Continues s s' × (s'.futures.state j ≡ s.futures.state j)
  unfolding poll
  poll-keeps now packets s j h = listen-keeps now s.running (has_pending_requests s) packets s j h

module _ (decimal hex : ℕ → Str) (parse : List ℕ → Frame) (iface : Interface) where
  ping_async-keeps :
      (host : IPv4Address) (mac : MacAddress) (m : Moment) (s : Scanner) (j : ℕ)
      → waits (s.futures.state j) ≡ false
      → j < s.futures.next
      → let s' = (ping_async decimal hex iface host mac m s).0 in
        (s'.futures.state j ≡ s.futures.state j) × (j < s'.futures.next)
  unfolding ping_async
  ping_async-keeps host mac m s j h b =
      elim (Option-cases (lookup (to_string decimal host) s.pending_requests)) [
        | inl absent ↦ rw absent (ground arith, ground arith)
        | inr (old, present) ↦ rw present (ground arith, ground arith)
      ]

  -- So a future that does not wait is never changed again.
  pub take_turns-keep :
      (turns : List Turn) (s : Scanner) (packets : List ReceivedPacket) (j : ℕ)
      → waits (s.futures.state j) ≡ false
      → j < s.futures.next
      → (take_turns decimal hex parse iface turns (s, packets)).0.futures.state j
        ≡ s.futures.state j
  take_turns-keep [] s packets j h b = refl
  take_turns-keep (arrived packet ∷ turns) s packets j h b = take_turns-keep turns s _ j h b
  take_turns-keep (ran now ∷ turns) s packets j h b =
      let (same, kept) = poll-keeps decimal parse now packets s j h in
      take_turns-keep turns _ _ j (rw kept h) (rw same.1 b) ∙ kept
  take_turns-keep (also_pinged host mac m ∷ turns) s packets j h b =
      let kept = ping_async-keeps host mac m s j h b in
      take_turns-keep turns _ packets j (rw kept.0 h) kept.1 ∙ kept.0
