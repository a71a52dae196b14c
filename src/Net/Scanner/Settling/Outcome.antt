-- ===== src/Net/Scanner/Settling/Outcome.antt =====
-- How a pending request comes to its end.
use mathlib.Core.Path.{subst, sym}
use cpp_grcp_testground.Prelude.{
  ℕ, ◌+◌, ◌<◌, ◌≡◌, inl, inr, true, some, List, [], ◌∷◌, ◌++◌, Str, arith, length, length-append,
  All,
}
use cpp_grcp_testground.Prelude.Map.{lookup}
use cpp_grcp_testground.Prelude.Strings.{str_order}
use cpp_grcp_testground.Net.Scanner.{
  Scanner, Request, Interface, Frame, ReceivedPacket, listen, on_packet_received, handle_timeouts,
}
use cpp_grcp_testground.Net.Scanner.Requests.{IsConsistent}
use cpp_grcp_testground.Net.Scanner.Settling.{
  Turn, arrived, ran, also_pinged, arrivals, late_runs, IsOutcome, take_turns, Spares,
  take_turns-keep, sweep-Continues, on_packet_received-Continues,
}
use cpp_grcp_testground.Net.Scanner.Settling.Pending.{
  IsPending, on_packet_received-settles, handle_timeouts-settles, ping_async-IsPending, below,
  poll-listen, IsOutcome-waits,
}

module _ (decimal hex : ℕ → Str) (parse : List ℕ → Frame) (iface : Interface) where
  -- What holds after a turn that has ended the wait holds after all turns.
  IsOutcome-stays :
      (turns : List Turn) (s s' : Scanner) (packets : List ReceivedPacket) (k : Str) (r : Request)
      → IsPending k r s
      → s'.futures.next ≡ s.futures.next
      → IsOutcome decimal k r (s'.futures.state r.promise)
      → IsOutcome decimal k r
          ((take_turns decimal hex parse iface turns (s', packets)).0.futures.state r.promise)
  IsOutcome-stays turns s s' packets k r h e o =
      rw
        (take_turns-keep decimal hex parse iface turns s' packets r.promise
          (IsOutcome-waits decimal k r _ o) (rw e (below k r s h)))
        o

  -- A run of the polling task, where the turns after it end a wait that goes on.
  run-IsOutcome :
      (turns : List Turn) (now : ℕ) (s : Scanner) (packets : List ReceivedPacket) (k : Str)
      (r : Request)
      → IsPending k r s
      → length packets + arrivals turns < late_runs r.time (ran now ∷ turns)
      → ((s' : Scanner) (left : List ReceivedPacket)
          → IsPending k r s'
          → length left + arrivals turns < late_runs r.time turns
          → IsOutcome decimal k r
              ((take_turns decimal hex parse iface turns (s', left)).0.futures.state r.promise))
      → let after = (listen decimal parse now true true packets s).0 in
        IsOutcome decimal k r
          ((take_turns decimal hex parse iface turns after).0.futures.state r.promise)
  unfolding handle_timeouts
  run-IsOutcome turns now s [] k r h enough goes_on =
      let s' = handle_timeouts now s in
      elim (handle_timeouts-settles decimal now s k r h) [
        | inl over ↦
            IsOutcome-stays turns s s' [] k r h (sweep-Continues now s.pending_requests s).1 over
        | inr (young, pending) ↦ goes_on s' [] pending (ground arith)
      ]
  run-IsOutcome turns now s (packet ∷ rest) k r h enough goes_on =
      let s' = on_packet_received decimal parse packet s in
      elim (on_packet_received-settles decimal parse packet s k r h) [
        | inl over ↦
            IsOutcome-stays turns s s' rest k r h
              (on_packet_received-Continues decimal parse packet s).1 over
        | inr pending ↦ goes_on s' rest pending (ground arith)
      ]

  pending-IsOutcome :
      (turns : List Turn) (s : Scanner) (packets : List ReceivedPacket) (k : Str) (r : Request)
      → IsPending k r s
      → All (Spares decimal k) turns
      → length packets + arrivals turns < late_runs r.time turns
      → IsOutcome decimal k r
          ((take_turns decimal hex parse iface turns (s, packets)).0.futures.state r.promise)
  pending-IsOutcome [] s packets k r h spared enough = absurd (omega arith)
  pending-IsOutcome (arrived packet ∷ turns) s packets k r h spared enough =
      pending-IsOutcome turns s (packets ++ (packet ∷ [])) k r h spared.1
        (omega (arith, length-append packets (packet ∷ [])))
  pending-IsOutcome (ran now ∷ turns) s packets k r h spared enough =
      subst
        (λ after.
          IsOutcome decimal k r
            ((take_turns decimal hex parse iface turns after.0).0.futures.state r.promise))
        (sym (poll-listen decimal parse now packets s k r h))
        (run-IsOutcome turns now s packets k r h enough
          λ s' left pending fewer. pending-IsOutcome turns s' left k r pending spared.1 fewer)
  pending-IsOutcome (also_pinged host mac m ∷ turns) s packets k r h spared enough =
      pending-IsOutcome turns _ packets k r
        (ping_async-IsPending decimal hex iface host mac m s k r h spared.0) spared.1 enough

  -- A pending request of a scanner that runs, where requests and futures agree, comes to its end. Let
  -- packets come, other hosts be pinged and the polling task run, more often at times when the request
  -- is five seconds old than packets wait or come. Its future then holds a response from its address,
  -- or the error that its address has timed out.
  pub take_turns-IsOutcome :
      (turns : List Turn) (s : Scanner) (packets : List ReceivedPacket) (k : Str) (r : Request)
      → IsConsistent s
      → s.running ≡ true
      → lookup k s.pending_requests ≡ some r
      → All (Spares decimal k) turns
      → length packets + arrivals turns < late_runs r.time turns
      → IsOutcome decimal k r
          ((take_turns decimal hex parse iface turns (s, packets)).0.futures.state r.promise)
  take_turns-IsOutcome turns s packets k r c running there spared enough =
      pending-IsOutcome turns s packets k r
        (record { consistent = c; there = there; is_running = running }) spared enough
