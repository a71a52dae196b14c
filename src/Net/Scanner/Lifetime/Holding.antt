-- ===== src/Net/Scanner/Lifetime/Holding.antt =====
-- Whatever happens, the task runner holds each polling task at most once, and none that was not made.
use cpp_grcp_testground.Prelude.{
  ℕ, ◌+◌, ◌≤◌, ◌≡◌, refl, false, Option, none, some, List, [], ◌∷◌, ◌==◌, if◌then◌else◌, Str, arith,
  inl, inr, Bool-cases,
}
use mathlib.Core.Path.{subst}
use cpp_grcp_testground.Net.Scanner.{Scanner, Frame, poll}
use cpp_grcp_testground.Async.Task.{Continuation, run_again, end_task, run_again_delayed}
use cpp_grcp_testground.Async.Runner.{TaskRunner, resolve, on_timer, continue_with}
use cpp_grcp_testground.Async.Runner
use cpp_grcp_testground.Net.Scanner.Lifetime.{
  TaskStore, Lifetime, Event, started, told_to_stop, destroyed, arrived, served, held, start_on,
  run_handler, fire_timer, serve, happen, history, history_from,
}

module _ {ℓ} {C : Type ℓ} (store : TaskStore C) where
  abbrev pub held_by : ℕ → TaskRunner C → ℕ
  held_by t r = store.queued t r.io_context + store.timed t r.io_context

  pub record HoldsOnce (w : Lifetime C) : Type 0 where
    pub once : (t : ℕ) → held store t w ≤ 1
    pub unmade : (t : ℕ) → w.next ≤ t → held store t w ≡ 0

  pub post-held :
      (t u : ℕ) (r : TaskRunner C)
      → held_by t (Runner.post store.io u r) ≤ held_by t r + (if t == u then 1 else 0)
  unfolding Runner.post
  post-held t u r =
      ground (arith, store.post_queued t u r.io_context, store.post_timed t u r.io_context)

  continue_with-held :
      (t u : ℕ) (answer : Continuation) (r : TaskRunner C)
      → held_by t (continue_with store.io u answer r) ≤ held_by t r + (if t == u then 1 else 0)
  unfolding Runner.post_delayed
  continue_with-held t u run_again r = post-held t u r
  continue_with-held t u end_task r = omega arith
  continue_with-held t u (run_again_delayed ms) r =
      ground (arith, store.timer_queued t u ms r.io_context, store.timer_timed t u ms r.io_context)

  taken-held :
      (t u : ℕ) (r : TaskRunner C)
      → (store.queued u r.io_context == 0) ≡ false
      → held_by t (record r { io_context = store.take_handler u r.io_context })
          + (if t == u then 1 else 0)
        ≡ held_by t r
  taken-held t u r due =
      ground (arith, store.handled_queued t u r.io_context, store.handled_timed t u r.io_context)

  fire_timer-held :
      (t u : ℕ) (w : Lifetime C)
      → (store.timed u w.runner.io_context == 0) ≡ false
      → held store t (fire_timer store u w) ≤ held store t w
  unfolding fire_timer on_timer
  fire_timer-held t u w due =
      let r : TaskRunner C = record w.runner {
        io_context = store.take_timer u w.runner.io_context;
      } in
      ground (
        arith,
        post-held t u r,
        store.fired_queued t u w.runner.io_context,
        store.fired_timed t u w.runner.io_context,
      )

  -- The runner holds no task more often, and the scanner knows the same one.
  abbrev pub HoldsNoMore : Lifetime C → Option (Lifetime C) → Type 0
  HoldsNoMore w none = Unit
  HoldsNoMore w (some w') =
      ((t : ℕ) → held store t w' ≤ held store t w)
      × (w'.next ≡ w.next)
      × (w'.current_task ≡ w.current_task)

  module _ (decimal : ℕ → Str) (parse : List ℕ → Frame) where
    run_handler-HoldsNoMore :
        (now u : ℕ) (w : Lifetime C) (own : Option Scanner)
        → w.scanner ≡ own
        → (store.queued u w.runner.io_context == 0) ≡ false
        → HoldsNoMore w (run_handler store decimal parse now u w)
    unfolding run_handler resolve
    run_handler-HoldsNoMore now u w none own due = rw own tt
    run_handler-HoldsNoMore now u w (some s) own due = rw own (
      λ t.
          let r : TaskRunner C = record w.runner {
            io_context = store.take_handler u w.runner.io_context;
          } in
          omega (
            arith,
            taken-held t u w.runner due,
            continue_with-held t u (poll decimal parse now w.packets s).1 r,
          ),
      refl,
      refl,
    )

    pub serve-HoldsNoMore :
        (now u : ℕ) (w : Lifetime C) → HoldsNoMore w (serve store decimal parse now u w)
    unfolding serve
    serve-HoldsNoMore now u w = elim (Bool-cases (store.queued u w.runner.io_context == 0)) [
      | inr due ↦ rw (due, serve) (run_handler-HoldsNoMore now u w w.scanner refl due)
      | inl idle ↦ elim (Bool-cases (store.timed u w.runner.io_context == 0)) [
        | inr due ↦
            rw (idle, due, serve)
              (λ t. fire_timer-held t u w due, fired_next u w, fired_current u w)
        | inl none_due ↦ rw (idle, none_due, serve) (λ t. omega arith, refl, refl)
      ]
    ]
      where
        fired_next : (u : ℕ) (w : Lifetime C) → (fire_timer store u w).next ≡ w.next
        fired_next u w = unfold fire_timer in refl

        fired_current :
            (u : ℕ) (w : Lifetime C) → (fire_timer store u w).current_task ≡ w.current_task
        fired_current u w = unfold fire_timer in refl

    abbrev pub Keeps : Option (Lifetime C) → Type 0
    Keeps none = Unit
    Keeps (some w) = HoldsOnce w

    HoldsNoMore-Keeps :
        (w : Lifetime C) (next : Option (Lifetime C))
        → HoldsOnce w
        → HoldsNoMore w next
        → Keeps next
    HoldsNoMore-Keeps w none v less = tt
    HoldsNoMore-Keeps w (some w') v less = record {
      once = λ t. omega (arith, v.once t, less.0 t);
      unmade = λ t h. omega (arith, v.unmade t (omega (arith, less.1)), less.0 t);
    }

    start_on-HoldsOnce :
        (s : Scanner) (w : Lifetime C) → HoldsOnce w → HoldsOnce (start_on store s w)
    unfolding start_on
    start_on-HoldsOnce s w v = record {
      once = λ t. ground (arith, v.once t, v.unmade t, post-held t w.next w.runner);
      unmade = λ t h. ground (arith, v.unmade t, post-held t w.next w.runner);
    }

    happen-Keeps :
        (e : Event) (w : Lifetime C) (own : Option Scanner)
        → w.scanner ≡ own
        → HoldsOnce w
        → Keeps (happen store decimal parse e w)
    unfolding start_on
    happen-Keeps started w none own v = rw own tt
    happen-Keeps started w (some s) own v = rw own (start_on-HoldsOnce s w v)
    happen-Keeps told_to_stop w none own v = rw own tt
    happen-Keeps told_to_stop w (some s) own v =
        rw own (record { once = v.once; unmade = v.unmade })
    happen-Keeps destroyed w o own v = record { once = v.once; unmade = v.unmade }
    happen-Keeps (arrived packet) w o own v = record { once = v.once; unmade = v.unmade }
    happen-Keeps (served now u) w o own v =
        HoldsNoMore-Keeps w (serve store decimal parse now u w) v (serve-HoldsNoMore now u w)

    history_from-Keeps :
        (es : List Event) (w : Option (Lifetime C))
        → Keeps w
        → Keeps (history_from store decimal parse es w)
    history_from-Keeps [] w v = v
    history_from-Keeps (e ∷ es) none v = tt
    history_from-Keeps (e ∷ es) (some w) v =
        history_from-Keeps es (happen store decimal parse e w) (happen-Keeps e w w.scanner refl v)

    -- From a runner that holds no polling task.
    pub history-HoldsOnce :
        (es : List Event) (w w' : Lifetime C)
        → ((t : ℕ) → held store t w ≡ 0)
        → history store decimal parse es w ≡ some w'
        → HoldsOnce w'
    unfolding history
    history-HoldsOnce es w w' none_held e = subst Keeps e (
        history_from-Keeps es (some w)
          (record { once = λ t. omega (arith, none_held t); unmade = λ t h. none_held t }))
