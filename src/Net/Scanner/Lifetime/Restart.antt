-- ===== src/Net/Scanner/Lifetime/Restart.antt =====
-- A scanner that is started twice before it is stopped.
use cpp_grcp_testground.Prelude.{
  ℕ, ◌+◌, ◌≡◌, refl, ◌∙◌, true, false, none, some, List, [], ◌∷◌, ◌==◌, if◌then◌else◌, Str, arith,
}
use cpp_grcp_testground.Net.Scanner.{Scanner, Frame}
use cpp_grcp_testground.Net.Scanner
use cpp_grcp_testground.Async.Runner
use cpp_grcp_testground.Net.Scanner.Lifetime.Calm.{expired-held, run_handler-stopped}
use cpp_grcp_testground.Net.Scanner.Lifetime.Use.{destroyed-faults}
use cpp_grcp_testground.Net.Scanner.Lifetime.{
  TaskStore, Lifetime, started, told_to_stop, destroyed, served, held, expired, start_on, serve,
  history, history_from,
}

module _ {ℓ} {C : Type ℓ} (store : TaskStore C) where
  module _ (decimal : ℕ → Str) (parse : List ℕ → Frame) where
    -- What two starts and a stop of a scanner leave.
    abbrev stopped_after_two : Scanner → Lifetime C → Lifetime C
    stopped_after_two s w =
        record (start_on store (Scanner.start_scanning s) (start_on store s w)) {
          scanner =
              some (Scanner.stop_scanning (Scanner.start_scanning (Scanner.start_scanning s)));
        }

    -- It is held by its handler once.
    two-queued :
        (t : ℕ) (s : Scanner) (w : Lifetime C)
        → store.io.is_stopped w.runner.io_context ≡ false
        → store.queued t (stopped_after_two s w).runner.io_context
          ≡ store.queued t w.runner.io_context
            + (if t == w.next then 1 else 0)
            + (if t == w.next + 1 then 1 else 0)
    unfolding start_on Runner.post
    two-queued t s w goes_on =
        let c = w.runner.io_context in
        ground (
          arith,
          store.post_stopped w.next c,
          store.post_queued t w.next c,
          store.post_queued t (w.next + 1) (store.io.post_handler w.next c),
        )

    two-timed :
        (t : ℕ) (s : Scanner) (w : Lifetime C)
        → store.io.is_stopped w.runner.io_context ≡ false
        → store.timed t (stopped_after_two s w).runner.io_context
          ≡ store.timed t w.runner.io_context
    unfolding start_on Runner.post
    two-timed t s w goes_on =
        let c = w.runner.io_context in
        ground (
          arith,
          store.post_stopped w.next c,
          store.post_timed t w.next c,
          store.post_timed t (w.next + 1) (store.io.post_handler w.next c),
        )

    serve_two :
        (now : ℕ) (s : Scanner) (w : Lifetime C)
        → store.io.is_stopped w.runner.io_context ≡ false
        → let v = stopped_after_two s w in
          serve store decimal parse now (w.next + 1) v
          ≡ some (record v {
            runner = record v.runner {
              io_context = store.take_handler (w.next + 1) v.runner.io_context;
            };
          })
    unfolding serve Scanner.stop_scanning
    serve_two now s w goes_on =
        let v = stopped_after_two s w in
        let due : (store.queued (w.next + 1) v.runner.io_context == 0) ≡ false =
          ground (arith, two-queued (w.next + 1) s w goes_on) in
        rw (due, serve) (run_handler-stopped store decimal parse now (w.next + 1) v _ refl refl)

    two-goes_on :
        (s : Scanner) (w : Lifetime C)
        → store.io.is_stopped w.runner.io_context ≡ false
        → store.io.is_stopped (stopped_after_two s w).runner.io_context ≡ false
    unfolding start_on Runner.post
    two-goes_on s w goes_on =
        let c = w.runner.io_context in
        ground (
          arith,
          store.post_stopped w.next c,
          store.post_stopped (w.next + 1) (store.io.post_handler w.next c),
        )

    two-alive :
        (s : Scanner) (w : Lifetime C) → (stopped_after_two s w).runner.is_alive ≡ w.runner.is_alive
    unfolding start_on Runner.post
    two-alive s w = ground arith

    two-history :
        (now : ℕ) (s : Scanner) (w : Lifetime C)
        → w.scanner ≡ some s
        → history_from store decimal parse
            (started ∷ started ∷ told_to_stop ∷ served now (w.next + 1) ∷ [])
            (some w)
          ≡ serve store decimal parse now (w.next + 1) (stopped_after_two s w)
    unfolding start_on
    two-history now s w there = rw there refl

    -- Where a scanner was started twice and told to stop, one run of its second task lets the loop of
    -- `stopScanning` return; a scanner that is destroyed then is used afterwards by its first task. The
    -- runner goes on, and holds no polling task at first.
    pub restarted-faults :
        (now first second : ℕ) (s : Scanner) (w : Lifetime C)
        → w.scanner ≡ some s
        → w.runner.is_alive ≡ true
        → store.io.is_stopped w.runner.io_context ≡ false
        → ((t : ℕ) → held store t w ≡ 0)
        → (w' : Lifetime C) × (history store decimal parse
              (started ∷ started ∷ told_to_stop ∷ served now (w.next + 1) ∷ [])
              w
            ≡ some w')
          × (expired store w' ≡ true)
          × (history store decimal parse
                (destroyed ∷ served first w.next ∷ served second w.next ∷ [])
                w'
              ≡ none)
    unfolding history
    restarted-faults now first second s w there alive goes_on idle =
        let v = stopped_after_two s w in
        let c = store.take_handler (w.next + 1) v.runner.io_context in
        let w' : Lifetime C = record v { runner = record v.runner { io_context = c } } in
        let first_queued = two-queued w.next s w goes_on in
        let last_queued = two-queued (w.next + 1) s w goes_on in
        let last_timed = two-timed (w.next + 1) s w goes_on in
        (
          w',
          two-history now s w there ∙ serve_two now s w goes_on,
          expired-held store (w.next + 1) w' (unfold start_on in refl)
              ∙ ground (
                arith,
                last_queued,
                last_timed,
                idle (w.next + 1),
                store.handled_queued (w.next + 1) (w.next + 1) v.runner.io_context,
                store.handled_timed (w.next + 1) (w.next + 1) v.runner.io_context,
              ),
          destroyed-faults store decimal parse first second w.next w' (two-alive s w ∙ alive)
              (store.handled_stopped (w.next + 1) v.runner.io_context ∙ two-goes_on s w goes_on)
              (ground (
                arith,
                first_queued,
                store.handled_queued w.next (w.next + 1) v.runner.io_context,
              )),
        )
