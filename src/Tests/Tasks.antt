-- ===== src/Tests/Tasks.antt =====
-- The resolver of futures.
use cpp_grcp_testground.Prelude.{ℕ, ◌+◌, false}
use cpp_grcp_testground.Async.FutureResolver.{FutureResolver}

-- A resolver that adds up what it is given.
abbrev resolver : FutureResolver ℕ ℕ
resolver = record {
  on_completion = λ n world. (world + n, false);
  on_exception = λ world. world + 1_000;
  retry_delay = 1_000;
}
