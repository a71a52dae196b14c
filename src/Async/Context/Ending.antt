-- ===== src/Async/Context/Ending.antt =====
-- Whether the thread of a task context, and that of a task runner, comes to an end.
use mathlib.Core.Path.{subst}
use mathlib.Core.Option.{some-injective}
use cpp_grcp_testground.Prelude.{
  ◌-◌, ℕ, suc, ◌≤◌, ◌≡◌, refl, Bool, true, false, Option, none, some, List, [], ◌∷◌, Str, arith,
}
use cpp_grcp_testground.Async.Runner
use cpp_grcp_testground.Async.Runner.{TaskRunner}
use cpp_grcp_testground.Async.Thread.{
  Thread, Phase, spawned, running, returned, spawn, set_name, request_stop,
}
use cpp_grcp_testground.Async.Context.{
  RunLoop, TaskContext, ServedRunner, create, stop, post, turn, runner_turn, threaded_by,
  context_name,
}

-- What happens to a context or to a runner: its thread takes a turn, someone posts a task, or someone
-- asks it to stop, the destructor of a context among them.
pub data Event {ℓ} (T : Type ℓ) : Type ℓ where
  turned : Event T
  posted : T → Event T
  asked_to_stop : Event T

abbrev pub turns {ℓ} : {T : Type ℓ} → List (Event T) → ℕ
turns [] = 0
turns (turned ∷ es) = suc (turns es)
turns (posted task ∷ es) = turns es
turns (asked_to_stop ∷ es) = turns es

abbrev pub has_returned : Phase → Bool
has_returned spawned = false
has_returned running = false
has_returned returned = true

module _ {ℓ κ} {T : Type ℓ} {C : Type κ} (loop : RunLoop T C) where
  abbrev pub happen : Event T → TaskContext C → TaskContext C
  happen turned x = turn loop x
  happen (posted task) x = post loop task x
  happen asked_to_stop x = stop x

  abbrev pub history : List (Event T) → TaskContext C → TaskContext C
  history [] x = x
  history (e ∷ es) x = history es (happen e x)

  -- The context was not stopped, and a thread in `run` has its guard.
  abbrev Serves : Phase → C → Type 0
  Serves spawned c = loop.io.is_stopped c ≡ false
  Serves running c = (loop.io.is_stopped c ≡ false) × (loop.has_guard c ≡ true)
  Serves returned c = ⊥

  turn-Serves :
      (p : Phase) (x : TaskContext C)
      → x.thread.phase ≡ p
      → Serves p x.io_context
      → let y = turn loop x in Serves y.thread.phase y.io_context
  unfolding turn
  turn-Serves spawned x e v =
      rw e (rw (loop.guard_stopped x.io_context) v, loop.guard_made x.io_context)
  turn-Serves running x e v =
      rw (e, v.0, v.1)
        (rw (loop.handle_stopped x.io_context) v.0, rw (loop.handle_guard x.io_context) v.1)
  turn-Serves returned x e v = absurd v

  post-Serves : (p : Phase) (task : T) (c : C) → Serves p c → Serves p (loop.io.post_handler task c)
  post-Serves spawned task c v = rw (loop.post_stopped task c) v
  post-Serves running task c v =
      (rw (loop.post_stopped task c) v.0, rw (loop.post_guard task c) v.1)
  post-Serves returned task c v = v

  history-Serves :
      (es : List (Event T)) (x : TaskContext C)
      → Serves x.thread.phase x.io_context
      → let y = history es x in Serves y.thread.phase y.io_context
  unfolding post stop request_stop
  history-Serves [] x v = v
  history-Serves (turned ∷ es) x v =
      history-Serves es (turn loop x) (turn-Serves x.thread.phase x refl v)
  history-Serves (posted task ∷ es) x v =
      history-Serves es _ (post-Serves x.thread.phase task x.io_context v)
  history-Serves (asked_to_stop ∷ es) x v = history-Serves es _ v

  Serves-has_returned : (p : Phase) (c : C) → Serves p c → has_returned p ≡ false
  Serves-has_returned spawned c v = refl
  Serves-has_returned running c v = refl
  Serves-has_returned returned c v = absurd v

  spawn-phase :
      (pthread_setname : Str → Str → Str) (exe name : Str) (t : Thread)
      → spawn pthread_setname exe name ≡ some t
      → t.phase ≡ spawned
  unfolding spawn set_name
  spawn-phase pthread_setname exe [] t e = ground arith
  spawn-phase pthread_setname exe (c ∷ name) t e = ground arith

  threaded_by-Serves :
      (c : C) (t : Option Thread) (x : TaskContext C)
      → ((u : Thread) → t ≡ some u → u.phase ≡ spawned)
      → loop.io.is_stopped c ≡ false
      → threaded_by c t ≡ some x
      → Serves x.thread.phase x.io_context
  threaded_by-Serves c none x new fresh made = ground arith
  threaded_by-Serves c (some t) x new fresh made =
      subst (λ y. Serves y.thread.phase y.io_context) (some-injective _ _ made)
        (rw (new t refl) fresh)

  -- The thread of a task context never returns, however it and its users take turns and however often
  -- it is asked to stop: not even the destructor, which asks it to stop and waits for its thread, ends.
  -- The `io_context` is one that was not stopped.
  pub create-serves :
      (pthread_setname : Str → Str → Str) (exe : Str) (c : C) (x : TaskContext C)
      (es : List (Event T))
      → loop.io.is_stopped c ≡ false
      → create pthread_setname exe c ≡ some x
      → has_returned (history es x).thread.phase ≡ false
  unfolding create
  create-serves pthread_setname exe c x es fresh made = Serves-has_returned _ _ (
      history-Serves es x (
        threaded_by-Serves c (spawn pthread_setname exe context_name) x
          (spawn-phase pthread_setname exe context_name) fresh made))

module _ {ℓ κ} {T : Type ℓ} {C : Type κ} (loop : RunLoop T C) where
  abbrev pub happen_late : Event T → ServedRunner C → ServedRunner C
  happen_late turned r = runner_turn loop r
  happen_late (posted task) r = record r { runner = Runner.post loop.io task r.runner }
  happen_late asked_to_stop r = record r { runner = Runner.stop loop.io r.runner }

  abbrev pub late_history : List (Event T) → ServedRunner C → ServedRunner C
  late_history [] r = r
  late_history (e ∷ es) r = late_history es (happen_late e r)

  -- How many turns a thread takes until it has returned, in a context that was stopped.
  abbrev turns_left : Phase → ℕ
  turns_left spawned = 2
  turns_left running = 1
  turns_left returned = 0

  turn-stopped :
      (p : Phase) (r : ServedRunner C)
      → r.service_thread.phase ≡ p
      → loop.io.is_stopped r.runner.io_context ≡ true
      → let r' = runner_turn loop r in
        (loop.io.is_stopped r'.runner.io_context ≡ true)
        × (turns_left r'.service_thread.phase ≡ turns_left p - 1)
  unfolding runner_turn
  turn-stopped spawned r e h = rw e (h, refl)
  turn-stopped running r e h = rw (e, h) (h, refl)
  turn-stopped returned r e h = rw e (h, refl)

  post-stopped :
      (task : T) (r : TaskRunner C)
      → loop.io.is_stopped r.io_context ≡ true
      → loop.io.is_stopped (Runner.post loop.io task r).io_context ≡ true
  unfolding Runner.post
  post-stopped task r h = ground arith

  none_left : (p : Phase) → turns_left p ≤ 0 → p ≡ returned
  none_left spawned h = ground arith
  none_left running h = ground arith
  none_left returned h = refl

  late_history-returned :
      (es : List (Event T)) (r : ServedRunner C)
      → loop.io.is_stopped r.runner.io_context ≡ true
      → turns_left r.service_thread.phase ≤ turns es
      → (late_history es r).service_thread.phase ≡ returned
  unfolding Runner.stop
  late_history-returned [] r h enough = none_left r.service_thread.phase enough
  late_history-returned (turned ∷ es) r h enough =
      let next = turn-stopped r.service_thread.phase r refl h in
      late_history-returned es (runner_turn loop r) next.0 (omega (arith, next.1))
  late_history-returned (posted task ∷ es) r h enough =
      late_history-returned es _ (post-stopped task r.runner h) enough
  late_history-returned (asked_to_stop ∷ es) r h enough =
      late_history-returned es _ (loop.io.stop_stops r.runner.io_context) enough

  -- The thread of a task runner that was destroyed has returned after two turns of it, wherever it was
  -- and whatever tasks are posted in between, so that the destructor, which waits for it, ends.
  pub destroy-returns :
      (r : ServedRunner C) (es : List (Event T))
      → 2 ≤ turns es
      → (late_history es
          (record r { runner = Runner.destroy loop.io r.runner })).service_thread.phase
        ≡ returned
  unfolding Runner.destroy Runner.stop
  destroy-returns r es enough =
      late_history-returned es _ (loop.io.stop_stops r.runner.io_context)
        (few_left r.service_thread.phase)
    where
      few_left : (p : Phase) → turns_left p ≤ turns es
      few_left spawned = enough
      few_left running = omega (arith, enough)
      few_left returned = omega arith
