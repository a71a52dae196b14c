-- ===== src/Net/Scanner/Lifetime/Serving.antt =====
-- A task runner that holds the polling task of a scanner with a pending request.
use cpp_grcp_testground.Prelude.{
  ℕ, suc, ◌≤◌, ◌≡◌, ◌∙◌, refl, inl, inr, true, false, Option, none, some, List, [], ◌∷◌, Str, arith,
  All, ◌==◌, Bool-cases,
}
use cpp_grcp_testground.Prelude.Strings.{str_order}
use cpp_grcp_testground.Util.Promises.{waits}
use cpp_grcp_testground.Models.Time.{has_passed}
use cpp_grcp_testground.Net.Scanner.{Scanner, Request, Frame, ReceivedPacket, poll}
use cpp_grcp_testground.Net.Scanner.Settling.{IsOutcome, poll-keeps}
use cpp_grcp_testground.Net.Scanner.Settling.Pending.{IsPending, IsOutcome-waits}
use cpp_grcp_testground.Async.Runner.{TaskRunner, resolve, on_timer, continue_with}
use cpp_grcp_testground.Async.Runner
use cpp_grcp_testground.Async.Task.{Continuation, run_again}
use cpp_grcp_testground.Net.Scanner.Lifetime.{
  TaskStore, Lifetime, Event, started, told_to_stop, destroyed, arrived, served, held, run_handler,
  fire_timer, serve, history_from, after,
}

-- The packets that come.
abbrev pub arrivals : List Event → ℕ
arrivals [] = 0
arrivals (started ∷ es) = arrivals es
arrivals (told_to_stop ∷ es) = arrivals es
arrivals (destroyed ∷ es) = arrivals es
arrivals (arrived packet ∷ es) = suc (arrivals es)
arrivals (served now u ∷ es) = arrivals es

-- A packet comes, or the task is served when a request of that time is five seconds old.
abbrev pub IsLate : ℕ → ℕ → Event → Type 0
IsLate time t started = ⊥
IsLate time t told_to_stop = ⊥
IsLate time t destroyed = ⊥
IsLate time t (arrived packet) = Unit
IsLate time t (served now u) = (u ≡ t) × (has_passed now time 5 ≡ true)

-- The scanner is there, and the future of the request holds a response from the address, or the error
-- that the address has timed out.
abbrev pub HasOutcome : (ℕ → Str) → Str → Request → Option Scanner → Type 0
HasOutcome decimal k r none = ⊥
HasOutcome decimal k r (some s) = IsOutcome decimal k r (s.futures.state r.promise)

abbrev pub IsAnswered {ℓ} : {C : Type ℓ} → (ℕ → Str) → Str → Request → Option (Lifetime C) → Type 0
IsAnswered decimal k r none = ⊥
IsAnswered decimal k r (some w) = HasOutcome decimal k r w.scanner

module _ {ℓ} {C : Type ℓ} (store : TaskStore C) (decimal : ℕ → Str) (parse : List ℕ → Frame) where
  -- What a run of the task leaves, by what polling comes to.
  abbrev pub handled : ℕ → Lifetime C → (Scanner × List ReceivedPacket) × Continuation → Lifetime C
  handled t w (polled, answer) = after store w (
    polled,
    continue_with store.io t answer
        (record w.runner { io_context = store.take_handler t w.runner.io_context }),
  )

  pub run_handler-handled :
      (now t : ℕ) (w : Lifetime C) (s : Scanner)
      → w.scanner ≡ some s
      → run_handler store decimal parse now t w
        ≡ some (handled t w (poll decimal parse now w.packets s))
  unfolding run_handler resolve
  run_handler-handled now t w s there = rw there refl

  -- What is served leaves the scanner there, and a future that does not wait as it is.
  serve-keeps :
      (now t : ℕ) (w : Lifetime C) (s : Scanner) (j : ℕ)
      → w.scanner ≡ some s
      → waits (s.futures.state j) ≡ false
      → (w' : Lifetime C) × (s' : Scanner) × (serve store decimal parse now t w ≡ some w')
        × (w'.scanner ≡ some s')
        × (s'.futures.state j ≡ s.futures.state j)
  unfolding serve fire_timer
  serve-keeps now t w s j there h = elim (Bool-cases (store.queued t w.runner.io_context == 0)) [
    | inr due ↦
        rw (due, serve)
          (
            handled t w (poll decimal parse now w.packets s),
            (poll decimal parse now w.packets s).0.0,
            run_handler-handled now t w s there,
            refl,
            (poll-keeps decimal parse now w.packets s j h).1,
          )
    | inl idle ↦ elim (Bool-cases (store.timed t w.runner.io_context == 0)) [
      | inr due ↦ rw (idle, due, serve) (_, s, refl, there, refl)
      | inl none_due ↦ rw (idle, none_due, serve) (w, s, refl, there, refl)
    ]
  ]

  pub IsAnswered-stays :
      (es : List Event) (w : Lifetime C) (s : Scanner) (time t : ℕ) (k : Str) (r : Request)
      → w.scanner ≡ some s
      → IsOutcome decimal k r (s.futures.state r.promise)
      → All (IsLate time t) es
      → IsAnswered decimal k r (history_from store decimal parse es (some w))
  IsAnswered-stays [] w s time t k r there over late = rw there over
  IsAnswered-stays (started ∷ es) w s time t k r there over late = absurd late.0
  IsAnswered-stays (told_to_stop ∷ es) w s time t k r there over late = absurd late.0
  IsAnswered-stays (destroyed ∷ es) w s time t k r there over late = absurd late.0
  IsAnswered-stays (arrived packet ∷ es) w s time t k r there over late =
      IsAnswered-stays es _ s time t k r there over late.1
  IsAnswered-stays (served now u ∷ es) w s time t k r there over late =
      let (w', s', done, there', kept) =
        serve-keeps now u w s r.promise there (IsOutcome-waits decimal k r _ over) in
      rw done (IsAnswered-stays es w' s' time t k r there' (rw kept over) late.1)

  -- The scanner waits for the answer to a request, and the runner, which works, holds the task.
  pub record IsServing (k : Str) (r : Request) (t : ℕ) (s : Scanner) (w : Lifetime C) : Type 0 where
    pub there : w.scanner ≡ some s
    pub pending : IsPending k r s
    pub alive : w.runner.is_alive ≡ true
    pub going : store.io.is_stopped w.runner.io_context ≡ false
    pub holding : 1 ≤ held store t w

  pub handled-IsServing :
      (t : ℕ) (k : Str) (r : Request) (s s' : Scanner) (rest : List ReceivedPacket) (w : Lifetime C)
      → IsServing k r t s w
      → (store.queued t w.runner.io_context == 0) ≡ false
      → IsPending k r s'
      → let w' = handled t w ((s', rest), run_again) in
        IsServing k r t s' w'
        × (store.timed t w'.runner.io_context ≡ store.timed t w.runner.io_context)
  unfolding Runner.post
  handled-IsServing t k r s s' rest w h due p =
      let c = store.take_handler t w.runner.io_context in
      let going : store.io.is_stopped c ≡ false =
        store.handled_stopped t w.runner.io_context ∙ h.going in
      (
        record {
          there = refl;
          pending = p;
          alive = rw going h.alive;
          going = rw going (store.post_stopped t c ∙ going);
          holding = rw going (ground (arith, store.post_queued t t c));
        },
        rw going (store.post_timed t t c ∙ store.handled_timed t t w.runner.io_context),
      )

  pub fired-IsServing :
      (t : ℕ) (k : Str) (r : Request) (s : Scanner) (w : Lifetime C)
      → IsServing k r t s w
      → (store.timed t w.runner.io_context == 0) ≡ false
      → IsServing k r t s (fire_timer store t w)
        × ((fire_timer store t w).packets ≡ w.packets)
        × (suc (store.timed t (fire_timer store t w).runner.io_context)
            ≡ store.timed t w.runner.io_context)
  unfolding fire_timer on_timer Runner.post
  fired-IsServing t k r s w h due =
      let c = store.take_timer t w.runner.io_context in
      let going : store.io.is_stopped c ≡ false =
        store.fired_stopped t w.runner.io_context ∙ h.going in
      (
        record {
          there = h.there;
          pending = h.pending;
          alive = rw (h.alive, going) refl;
          going = rw (h.alive, going) (store.post_stopped t c ∙ going);
          holding = rw (h.alive, going) (ground (arith, store.post_queued t t c));
        },
        refl,
        rw (h.alive, going)
            (ground (arith, store.post_timed t t c, store.fired_timed t t w.runner.io_context)),
      )
