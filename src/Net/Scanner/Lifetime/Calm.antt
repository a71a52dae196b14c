-- ===== src/Net/Scanner/Lifetime/Calm.antt =====
-- What the runner's work on the polling tasks comes to once a scanner does not run.
use cpp_grcp_testground.Prelude.{
  ℕ, ◌+◌, ◌-◌, ◌*◌, ◌≤◌, ◌≡◌, refl, true, false, some, List, ◌==◌, if◌then◌else◌, Str, arith, inl,
  inr, Bool-cases,
}
use cpp_grcp_testground.Net.Scanner.{Scanner, Frame, poll}
use cpp_grcp_testground.Async.Runner.{TaskRunner, resolve, on_timer}
use cpp_grcp_testground.Async.Runner
use cpp_grcp_testground.Net.Scanner.Lifetime.{
  TaskStore, Lifetime, held, expired, run_handler, fire_timer, serve,
}

module _ {ℓ} {C : Type ℓ} (store : TaskStore C) where
  -- How many services a task takes at most until the runner does not hold it any more.
  abbrev pub weight : ℕ → TaskRunner C → ℕ
  weight t r = 2 * store.timed t r.io_context + store.queued t r.io_context

  pub post-weight :
      (t u : ℕ) (r : TaskRunner C)
      → weight t (Runner.post store.io u r) ≤ weight t r + (if t == u then 1 else 0)
  unfolding Runner.post
  post-weight t u r =
      ground (arith, store.post_queued t u r.io_context, store.post_timed t u r.io_context)

  fire_timer-weight :
      (t u : ℕ) (w : Lifetime C)
      → (store.timed u w.runner.io_context == 0) ≡ false
      → weight t (fire_timer store u w).runner ≤ weight t w.runner - (if t == u then 1 else 0)
  unfolding fire_timer on_timer
  fire_timer-weight t u w due =
      let r : TaskRunner C = record w.runner {
        io_context = store.take_timer u w.runner.io_context;
      } in
      ground (
        arith,
        post-weight t u r,
        store.fired_queued t u w.runner.io_context,
        store.fired_timed t u w.runner.io_context,
      )

  -- The weak pointer to a task has expired when the runner does not hold the task.
  pub expired-held :
      (t : ℕ) (w : Lifetime C) → w.current_task ≡ some t → expired store w ≡ (held store t w == 0)
  unfolding expired
  expired-held t w current = ground arith

  pub held-expired :
      (t : ℕ) (w : Lifetime C)
      → w.current_task ≡ some t
      → expired store w ≡ true
      → held store t w ≡ 0
  held-expired t w current gone = ground (arith, expired-held t w current)

  module _ (decimal : ℕ → Str) (parse : List ℕ → Frame) where
    -- What a service of the task `u` leaves of a scanner that does not run.
    abbrev pub Calmed : Lifetime C → Scanner → ℕ → ℕ → Lifetime C → Type 0
    Calmed w s t u w' =
        (w'.scanner ≡ some s)
        × (w'.current_task ≡ w.current_task)
        × (w'.packets ≡ w.packets)
        × (w'.next ≡ w.next)
        × (weight t w'.runner ≤ weight t w.runner - (if t == u then 1 else 0))

    -- The task of a scanner that does not run is over when it is run.
    pub run_handler-stopped :
        (now u : ℕ) (w : Lifetime C) (s : Scanner)
        → w.scanner ≡ some s
        → s.running ≡ false
        → run_handler store decimal parse now u w
          ≡ some (record w {
            scanner = some s;
            runner = record w.runner { io_context = store.take_handler u w.runner.io_context };
          })
    unfolding run_handler resolve poll
    run_handler-stopped now u w s there quiet = rw (there, quiet) refl

    handler-calm :
        (now t u : ℕ) (w : Lifetime C) (s : Scanner)
        → w.scanner ≡ some s
        → s.running ≡ false
        → (store.queued u w.runner.io_context == 0) ≡ false
        → (w' : Lifetime C) × (run_handler store decimal parse now u w ≡ some w')
          × Calmed w s t u w'
    handler-calm now t u w s there quiet due = (
      _,
      run_handler-stopped now u w s there quiet,
      (
        refl,
        refl,
        refl,
        refl,
        ground (
          arith,
          store.handled_queued t u w.runner.io_context,
          store.handled_timed t u w.runner.io_context,
        ),
      ),
    )

    timer-calm :
        (t u : ℕ) (w : Lifetime C) (s : Scanner)
        → w.scanner ≡ some s
        → (store.timed u w.runner.io_context == 0) ≡ false
        → Calmed w s t u (fire_timer store u w)
    unfolding fire_timer
    timer-calm t u w s there due = (there, refl, refl, refl, fire_timer-weight t u w due)

    pub serve-calm :
        (now t u : ℕ) (w : Lifetime C) (s : Scanner)
        → w.scanner ≡ some s
        → s.running ≡ false
        → (w' : Lifetime C) × (serve store decimal parse now u w ≡ some w') × Calmed w s t u w'
    unfolding serve
    serve-calm now t u w s there quiet =
        elim (Bool-cases (store.queued u w.runner.io_context == 0)) [
          | inr due ↦ rw (due, serve) (handler-calm now t u w s there quiet due)
          | inl idle ↦ elim (Bool-cases (store.timed u w.runner.io_context == 0)) [
            | inr due ↦
                rw (idle, due, serve) (fire_timer store u w, refl, timer-calm t u w s there due)
            | inl none_due ↦
                rw (idle, none_due, serve) (w, refl, (there, refl, refl, refl, ground arith))
          ]
        ]

    pub Calmed-weight :
        (w w' : Lifetime C) (s : Scanner) (t u k : ℕ)
        → Calmed w s t u w'
        → weight t w.runner ≤ (if t == u then 1 else 0) + k
        → weight t w'.runner ≤ k
    Calmed-weight w w' s t u k c h = omega (arith, c.4)
