-- ===== src/Net/Scanner/Lifetime/Answering.antt =====
-- That a ping is answered by the task runner that polls the scanner.
use cpp_grcp_testground.Prelude.{
  ℕ, suc, ◌+◌, ◌≤◌, ◌<◌, ◌≡◌, refl, inl, inr, true, false, some, List, [], ◌∷◌, ◌++◌, Str, arith,
  length, length-append, All, ◌==◌, Bool-cases,
}
use cpp_grcp_testground.Prelude.Map.{lookup}
use cpp_grcp_testground.Prelude.Strings.{str_order}
use cpp_grcp_testground.Models.Time.{has_passed}
use cpp_grcp_testground.Net.Scanner.{
  Scanner, Request, Frame, ReceivedPacket, listen, on_packet_received, handle_timeouts,
}
use cpp_grcp_testground.Net.Scanner.Requests.{IsConsistent}
use cpp_grcp_testground.Net.Scanner.Settling.Pending.{
  on_packet_received-settles, handle_timeouts-settles, poll-listen,
}
use cpp_grcp_testground.Async.Task.{run_again}
use cpp_grcp_testground.Net.Scanner.Lifetime.{
  TaskStore, Lifetime, Event, started, told_to_stop, destroyed, arrived, served, held, fire_timer,
  serve, history, history_from,
}
use cpp_grcp_testground.Net.Scanner.Lifetime.Ending.{services}
use cpp_grcp_testground.Net.Scanner.Lifetime.Serving.{
  arrivals, IsLate, IsAnswered, handled, run_handler-handled, IsAnswered-stays, IsServing,
  handled-IsServing, fired-IsServing,
}

module _ {ℓ} {C : Type ℓ} (store : TaskStore C) (decimal : ℕ → Str) (parse : List ℕ → Frame) where
  -- A run of the task that listens ends the wait, or takes a packet.
  listened-IsAnswered :
      (now t : ℕ) (es : List Event) (k : Str) (r : Request) (s : Scanner) (w : Lifetime C)
      (packets : List ReceivedPacket)
      → w.packets ≡ packets
      → IsServing store decimal parse k r t s w
      → (store.queued t w.runner.io_context == 0) ≡ false
      → has_passed now r.time 5 ≡ true
      → All (IsLate r.time t) es
      → ((s' : Scanner) (w' : Lifetime C)
          → IsServing store decimal parse k r t s' w'
          → suc (length w'.packets + store.timed t w'.runner.io_context)
            ≤ length w.packets + store.timed t w.runner.io_context
          → IsAnswered decimal k r (history_from store decimal parse es (some w')))
      → IsAnswered decimal k r (
          history_from store decimal parse es
            (some (handled store decimal parse t w (listen decimal parse now true true packets s))))
  listened-IsAnswered now t es k r s w [] e h due old late goes_on =
      elim (handle_timeouts-settles decimal now s k r h.pending) [
        | inl over ↦
            IsAnswered-stays store decimal parse es _ (handle_timeouts now s) r.time t k r refl over
              late
        | inr (young, pending) ↦ absurd (ground arith)
      ]
  listened-IsAnswered now t es k r s w (packet ∷ rest) e h due old late goes_on =
      let s' = on_packet_received decimal parse packet s in
      elim (on_packet_received-settles decimal parse packet s k r h.pending) [
        | inl over ↦ IsAnswered-stays store decimal parse es _ s' r.time t k r refl over late
        | inr pending ↦
            let (serving, same_timers) =
              handled-IsServing store decimal parse t k r s s' rest w h due pending in
            goes_on s' (handled store decimal parse t w ((s', rest), run_again)) serving
              (rw (e, same_timers) (omega arith))
      ]

  -- One service of the task ends the wait, or leaves less to do before it ends.
  served-IsAnswered :
      (now t : ℕ) (es : List Event) (k : Str) (r : Request) (s : Scanner) (w : Lifetime C)
      → IsServing store decimal parse k r t s w
      → has_passed now r.time 5 ≡ true
      → All (IsLate r.time t) es
      → ((s' : Scanner) (w' : Lifetime C)
          → IsServing store decimal parse k r t s' w'
          → suc (length w'.packets + store.timed t w'.runner.io_context)
            ≤ length w.packets + store.timed t w.runner.io_context
          → IsAnswered decimal k r (history_from store decimal parse es (some w')))
      → IsAnswered decimal k r
          (history_from store decimal parse es (serve store decimal parse now t w))
  unfolding serve
  served-IsAnswered now t es k r s w h old late goes_on =
      elim (Bool-cases (store.queued t w.runner.io_context == 0)) [
        | inr due ↦
            rw
              (
                due,
                serve,
                run_handler-handled store decimal parse now t w s h.there,
                poll-listen decimal parse now w.packets s k r h.pending,
              )
              (listened-IsAnswered now t es k r s w w.packets refl h due old late goes_on)
        | inl idle ↦ elim (Bool-cases (store.timed t w.runner.io_context == 0)) [
          | inr due ↦
              let (fired, packets, less) = fired-IsServing store decimal parse t k r s w h due in
              rw (idle, due, serve)
                (goes_on s (fire_timer store t w) fired (rw packets (omega (arith, less))))
          | inl none_due ↦ absurd (ground (arith, h.holding))
        ]
      ]

  late-IsAnswered :
      (es : List Event) (t : ℕ) (k : Str) (r : Request) (s : Scanner) (w : Lifetime C)
      → IsServing store decimal parse k r t s w
      → All (IsLate r.time t) es
      → length w.packets + arrivals es + store.timed t w.runner.io_context < services t es
      → IsAnswered decimal k r (history_from store decimal parse es (some w))
  late-IsAnswered [] t k r s w h late enough = absurd (omega arith)
  late-IsAnswered (started ∷ es) t k r s w h late enough = absurd late.0
  late-IsAnswered (told_to_stop ∷ es) t k r s w h late enough = absurd late.0
  late-IsAnswered (destroyed ∷ es) t k r s w h late enough = absurd late.0
  late-IsAnswered (arrived packet ∷ es) t k r s w h late enough =
      late-IsAnswered es t k r s (record w { packets = w.packets ++ (packet ∷ []) })
        (record {
          there = h.there;
          pending = h.pending;
          alive = h.alive;
          going = h.going;
          holding = h.holding;
        })
        late.1 (omega (arith, length-append w.packets (packet ∷ [])))
  late-IsAnswered (served now u ∷ es) t k r s w h late enough = rw late.0.0 (
      served-IsAnswered now t es k r s w h late.0.1 late.1
        λ s' w' h' less. late-IsAnswered es t k r s' w' h' late.1 (ground arith))

  -- A scanner that runs, where requests and futures agree, and a task runner that works and holds its
  -- polling task answer a ping: once the request is five seconds old, let packets come and the thread
  -- of the runner serve the task, more often than packets wait or come and timers hold the task. The
  -- scanner is then there, and the future of the request holds a response from its address, or the
  -- error that its address has timed out.
  pub history-IsAnswered :
      (es : List Event) (t : ℕ) (k : Str) (r : Request) (s : Scanner) (w : Lifetime C)
      → w.scanner ≡ some s
      → IsConsistent s
      → s.running ≡ true
      → lookup k s.pending_requests ≡ some r
      → w.runner.is_alive ≡ true
      → store.io.is_stopped w.runner.io_context ≡ false
      → 1 ≤ held store t w
      → All (IsLate r.time t) es
      → length w.packets + arrivals es + store.timed t w.runner.io_context < services t es
      → IsAnswered decimal k r (history store decimal parse es w)
  unfolding history
  history-IsAnswered es t k r s w there c running pending alive going holding late enough =
      late-IsAnswered es t k r s w
        (record {
          there = there;
          pending = record { consistent = c; there = pending; is_running = running };
          alive = alive;
          going = going;
          holding = holding;
        })
        late enough
