-- ===== src/Async.antt =====
-- core/core/util/async: tasks, the runner that serves them, and the task that waits for a future.
pub mod Task
pub mod Runner
pub mod FutureResolver
pub mod Registry
pub mod Thread
pub mod Context
