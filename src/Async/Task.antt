-- ===== src/Async/Task.antt =====
-- core/core/util/async/Task.h: what a task answers, and the task that runs a function once.
use cpp_grcp_testground.Prelude.{ℕ}

-- What a task asks for after a run; a delay is in milliseconds.
pub data Continuation : Type 0 where
  run_again end_task : Continuation
  run_again_delayed : ℕ → Continuation

-- `OneShotTask::run`
abbrev pub one_shot {ℓ} : {W : Type ℓ} → (W → W) → W → W × Continuation
one_shot func world = (func world, end_task)
