-- ===== src/Async/Context.antt =====
-- core/core/util/async/TaskContext.h (a task context, which is a thread that serves an `io_context` of
-- the network library) and the thread of the task runner (Task.cpp).
pub mod Ending
use cpp_grcp_testground.Prelude.{
  ℕ, ◌≡◌, Bool, true, false, not, ◌&&◌, ◌||◌, Option, none, some, List, [], ◌∷◌, ◌==◌, Str,
  if◌then◌else◌,
}
use cpp_grcp_testground.Async.Runner.{IoContext, TaskRunner}
use cpp_grcp_testground.Async.Thread.{
  Thread, Phase, spawned, running, returned, request_stop, spawn,
}

-- What `io_context::run` does, beyond the interface of the runner: `handle` runs one of the handlers,
-- if one is ready. The laws are documented behaviour: only `stop` stops a context, only its owner lets
-- go of a work guard, and `run` gets to know of a guard that was made. That no handler calls `stop` is
-- what the code of the repository does.
pub record RunLoop {ℓ κ} (T : Type ℓ) (C : Type κ) : Type (ℓ ⊔ κ) where
  pub io : IoContext T C
  pub handle : C → C
  pub make_guard : C → C
  pub has_guard : C → Bool
  pub guard_made : (c : C) → has_guard (make_guard c) ≡ true
  pub guard_stopped : (c : C) → io.is_stopped (make_guard c) ≡ io.is_stopped c
  pub handle_guard : (c : C) → has_guard (handle c) ≡ has_guard c
  pub handle_stopped : (c : C) → io.is_stopped (handle c) ≡ io.is_stopped c
  pub post_guard : (task : T) (c : C) → has_guard (io.post_handler task c) ≡ has_guard c
  pub post_stopped : (task : T) (c : C) → io.is_stopped (io.post_handler task c) ≡ io.is_stopped c

pub record TaskContext {ℓ} (C : Type ℓ) : Type ℓ where
  pub io_context : C
  pub thread : Thread

-- The text `TaskContext`.
abbrev pub context_name : Str
context_name = 84 ∷ 97 ∷ 115 ∷ 107 ∷ 67 ∷ 111 ∷ 110 ∷ 116 ∷ 101 ∷ 120 ∷ 116 ∷ []

abbrev pub threaded_by {ℓ} : {C : Type ℓ} → C → Option Thread → Option (TaskContext C)
threaded_by c none = none
threaded_by c (some t) = some (record { io_context = c; thread = t })

-- The constructor of a context, on an `io_context` as the network library makes it.
unfoldable pub create {ℓ} : {C : Type ℓ} → (Str → Str → Str) → Str → C → Option (TaskContext C)
create pthread_setname exe c = threaded_by c (spawn pthread_setname exe context_name)

unfoldable pub stop {ℓ} : {C : Type ℓ} → TaskContext C → TaskContext C
stop x = record x { thread = request_stop x.thread }

-- The destructor, before the thread is destroyed with the other members.
unfoldable pub destroy {ℓ} : {C : Type ℓ} → TaskContext C → TaskContext C
unfolding stop
destroy x = stop x

module _ {ℓ κ} {T : Type ℓ} {C : Type κ} (loop : RunLoop T C) where
  unfoldable pub post : T → TaskContext C → TaskContext C
  post task x = record x { io_context = loop.io.post_handler task x.io_context }

  -- `run` returns when the context was stopped, or when nothing is left and nothing guards it.
  abbrev pub may_return : C → Bool
  may_return c = loop.io.is_stopped c || (not (loop.has_guard c) && (loop.io.pending c == 0))

  -- The next step of a thread in `run`.
  abbrev pub serve : C → Thread → C × Thread
  serve c t = if may_return c then (c, record t { phase = returned }) else (loop.handle c, t)

  -- The next step of the thread of a task context: it makes the guard, and then it is in `run`.
  abbrev pub step : Phase → TaskContext C → TaskContext C
  step spawned x = record {
    io_context = loop.make_guard x.io_context;
    thread = record x.thread { phase = running };
  }
  step running x =
      let served = serve x.io_context x.thread in
      record { io_context = served.0; thread = served.1 }
  step returned x = x

  unfoldable pub turn : TaskContext C → TaskContext C
  turn x = step x.thread.phase x

-- A task runner and its thread.
pub record ServedRunner {ℓ} (C : Type ℓ) : Type ℓ where
  pub runner : TaskRunner C
  pub service_thread : Thread

abbrev pub served_by {ℓ} : {C : Type ℓ} → TaskRunner C → Option Thread → Option (ServedRunner C)
served_by r none = none
served_by r (some t) = some (record { runner = r; service_thread = t })

-- The constructor of a task runner, whose guard is made before its thread.
unfoldable pub create_runner {ℓ κ} :
    {T : Type ℓ} {C : Type κ}
    → RunLoop T C
    → (Str → Str → Str)
    → Str
    → Str
    → C
    → Option (ServedRunner C)
create_runner loop pthread_setname exe name c =
    served_by (record { io_context = loop.make_guard c; is_alive = true })
      (spawn pthread_setname exe name)

module _ {ℓ κ} {T : Type ℓ} {C : Type κ} (loop : RunLoop T C) where
  -- The next step of the thread of a task runner, which only calls `run`.
  abbrev pub runner_step : Phase → ServedRunner C → ServedRunner C
  runner_step spawned r = record r { service_thread = record r.service_thread { phase = running } }
  runner_step running r =
      let served = serve loop r.runner.io_context r.service_thread in
      record { runner = record r.runner { io_context = served.0 }; service_thread = served.1 }
  runner_step returned r = r

  unfoldable pub runner_turn : ServedRunner C → ServedRunner C
  runner_turn r = runner_step r.service_thread.phase r
