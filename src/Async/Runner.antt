-- ===== src/Async/Runner.antt =====
-- core/core/util/async/Task.cpp: the task runner, whose one thread serves an `io_context` of the
-- network library.
use cpp_grcp_testground.Prelude.{
  ℕ, suc, ◌+◌, ◌≡◌, refl, Bool, true, false, if◌then◌else◌, arith, not,
}
use cpp_grcp_testground.Async.Task.{Continuation, run_again, end_task, run_again_delayed}

-- What the runner uses of an `io_context` with the state `C`, for handlers that each resolve a task
-- `T`: posting a handler, starting a timer whose handler posts the task, `stop` and `stopped`. The
-- laws are documented behaviour: `pending` is how many handlers and timers the context holds, to
-- which a call adds its own, and a context is stopped after `stop`.
pub record IoContext {ℓ κ} (T : Type ℓ) (C : Type κ) : Type (ℓ ⊔ κ) where
  pub post_handler : T → C → C
  pub start_timer : ℕ → T → C → C
  pub stop_context : C → C
  pub is_stopped : C → Bool
  pub pending : C → ℕ
  pub post_adds : (task : T) (c : C) → pending (post_handler task c) ≡ suc (pending c)
  pub timer_adds :
      (delay : ℕ) (task : T) (c : C) → pending (start_timer delay task c) ≡ suc (pending c)
  pub stop_stops : (c : C) → is_stopped (stop_context c) ≡ true

pub record TaskRunner {ℓ} (C : Type ℓ) : Type ℓ where
  pub io_context : C
  pub is_alive : Bool

module _ {ℓ κ} {T : Type ℓ} {C : Type κ} (io : IoContext T C) where
  unfoldable pub post : T → TaskRunner C → TaskRunner C
  post task r =
      if not (io.is_stopped r.io_context)
      then record r { io_context = io.post_handler task r.io_context }
      else r

  unfoldable pub post_delayed : T → ℕ → TaskRunner C → TaskRunner C
  post_delayed task delay r = record r { io_context = io.start_timer delay task r.io_context }

  -- `post<T>(args...)` and `postDelayed<T>(args..., delay)`: the task is made of the arguments, and
  -- returned.
  unfoldable pub post_new {μ} : {A : Type μ} → (A → T) → A → TaskRunner C → T × TaskRunner C
  unfolding post
  post_new make_task args r = let task = make_task args in (task, post task r)

  unfoldable pub post_delayed_new {μ} :
      {A : Type μ} → (A → T) → A → ℕ → TaskRunner C → T × TaskRunner C
  unfolding post_delayed
  post_delayed_new make_task args delay r =
      let task = make_task args in (task, post_delayed task delay r)

  -- The handler of a timer.
  unfoldable pub on_timer : T → TaskRunner C → TaskRunner C
  on_timer task r = if r.is_alive then post task r else r

  unfoldable pub stop : TaskRunner C → TaskRunner C
  stop r = record r { io_context = io.stop_context r.io_context }

  -- The destructor.
  unfoldable pub destroy : TaskRunner C → TaskRunner C
  destroy r = stop (record r { is_alive = false })

  -- What `resolve` does with the answer of the task.
  abbrev pub continue_with : T → Continuation → TaskRunner C → TaskRunner C
  continue_with task run_again r = post task r
  continue_with task (run_again_delayed delay) r = post_delayed task delay r
  continue_with task end_task r = r

  unfoldable pub resolve {μ} :
      {W : Type μ} → (T → W → W × Continuation) → T → W → TaskRunner C → W × TaskRunner C
  resolve run task world r =
      let answer = run task world in (answer.0, continue_with task answer.1 r)

  -- How many handlers and timers an answer leaves, in a context that was stopped or not.
  abbrev pub left_over : Bool → Continuation → ℕ
  left_over stopped run_again = if stopped then 0 else 1
  left_over stopped end_task = 0
  left_over stopped (run_again_delayed _) = 1

  continue_with-pending :
      (task : T) (answer : Continuation) (r : TaskRunner C)
      → io.pending (continue_with task answer r).io_context
        ≡ io.pending r.io_context + left_over (io.is_stopped r.io_context) answer
  unfolding post post_delayed
  continue_with-pending task run_again r = ground (arith, io.post_adds task r.io_context)
  continue_with-pending task end_task r = omega arith
  continue_with-pending task (run_again_delayed delay) r =
      ground (arith, io.timer_adds delay task r.io_context)

  -- To resolve a task runs it once, in the world as it is, and the context then holds one handler or
  -- timer more if the task asks for another run, and none more if it has ended; a context that was
  -- stopped takes no task that asks to run again at once.
  pub resolve-pending {μ} :
      {W : Type μ} (run : T → W → W × Continuation) (task : T) (world : W) (r : TaskRunner C)
      → let resolved = resolve run task world r in
        (resolved.0 ≡ (run task world).0)
        × (io.pending resolved.1.io_context
            ≡ io.pending r.io_context + left_over (io.is_stopped r.io_context) (run task world).1)
  unfolding resolve
  resolve-pending run task world r = (refl, continue_with-pending task (run task world).1 r)

  -- A runner that was destroyed takes no task: neither one that is posted nor one whose timer runs
  -- late changes it.
  pub destroy-post :
      (task : T) (r : TaskRunner C)
      → (post task (destroy r) ≡ destroy r) × (on_timer task (destroy r) ≡ destroy r)
  unfolding destroy stop post on_timer
  destroy-post task r = ground (arith, io.stop_stops r.io_context)
