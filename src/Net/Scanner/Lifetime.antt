-- ===== src/Net/Scanner/Lifetime.antt =====
-- core/core/net/scanner/IScanner.h: how the polling task of a scanner is started, stopped and awaited,
-- and what becomes of it in the default task runner (core/core/util/async/Task.cpp).
--
-- A task is known by its number, the runner holds it by handlers and timers, and the scanner knows the
-- task that it started last by a weak pointer. A task knows the scanner by a plain pointer: `none` is
-- the use of a scanner that was destroyed.
pub mod Holding
pub mod Calm
pub mod Ending
pub mod Use
pub mod Restart
pub mod Serving
pub mod Answering
use cpp_grcp_testground.Prelude.{
  ℕ, ◌+◌, ◌-◌, ◌≡◌, Bool, true, false, Option, none, some, List, [], ◌∷◌, ◌++◌, ◌==◌, if◌then◌else◌,
  Str,
}
use cpp_grcp_testground.Net.Scanner.{Scanner, ReceivedPacket, Frame, poll}
use cpp_grcp_testground.Net.Scanner
use cpp_grcp_testground.Async.Runner.{IoContext, TaskRunner, resolve, on_timer}
use cpp_grcp_testground.Async.Runner

-- An `io_context` that holds tasks by its handlers (`queued`) and timers (`timed`), each as often as
-- they were given to it; `take_handler` and `take_timer` are what it does when it runs one of them.
-- The laws are documented behaviour: what is posted is held until it is run.
pub record TaskStore {ℓ} (C : Type ℓ) : Type ℓ where
  pub io : IoContext ℕ C
  pub queued : ℕ → C → ℕ
  pub timed : ℕ → C → ℕ
  pub take_handler : ℕ → C → C
  pub take_timer : ℕ → C → C
  pub post_queued :
      (t u : ℕ) (c : C) → queued t (io.post_handler u c) ≡ queued t c + (if t == u then 1 else 0)
  pub post_timed : (t u : ℕ) (c : C) → timed t (io.post_handler u c) ≡ timed t c
  pub timer_queued : (t u ms : ℕ) (c : C) → queued t (io.start_timer ms u c) ≡ queued t c
  pub timer_timed :
      (t u ms : ℕ) (c : C) → timed t (io.start_timer ms u c) ≡ timed t c + (if t == u then 1 else 0)
  pub post_stopped : (u : ℕ) (c : C) → io.is_stopped (io.post_handler u c) ≡ io.is_stopped c
  pub fired_stopped : (u : ℕ) (c : C) → io.is_stopped (take_timer u c) ≡ io.is_stopped c
  pub handled_stopped : (u : ℕ) (c : C) → io.is_stopped (take_handler u c) ≡ io.is_stopped c
  pub handled_queued :
      (t u : ℕ) (c : C) → queued t (take_handler u c) ≡ queued t c - (if t == u then 1 else 0)
  pub handled_timed : (t u : ℕ) (c : C) → timed t (take_handler u c) ≡ timed t c
  pub fired_queued : (t u : ℕ) (c : C) → queued t (take_timer u c) ≡ queued t c
  pub fired_timed :
      (t u : ℕ) (c : C) → timed t (take_timer u c) ≡ timed t c - (if t == u then 1 else 0)

-- `scanner` is `none` once it was destroyed, `packets` wait at its listener, and `next` is the number
-- of the next task.
pub record Lifetime {ℓ} (C : Type ℓ) : Type ℓ where
  pub scanner : Option Scanner
  pub packets : List ReceivedPacket
  pub runner : TaskRunner C
  pub current_task : Option ℕ
  pub next : ℕ

-- What may happen: the scanner is started, told to stop or destroyed, a packet comes, or the thread of
-- the runner runs, at a time, what is due of a task.
pub data Event : Type 0 where
  started told_to_stop destroyed : Event
  arrived : ReceivedPacket → Event
  served : ℕ → ℕ → Event

-- How the loop that awaits the end of the task goes: it returns, with the events that are still to
-- happen, it waits still, or a scanner that was destroyed was used.
pub data Awaited {ℓ} (C : Type ℓ) : Type ℓ where
  left : Lifetime C → List Event → Awaited C
  waits : Lifetime C → Awaited C
  faulted : Awaited C

module _ {ℓ} {C : Type ℓ} (store : TaskStore C) where
  -- How often the runner holds a task.
  abbrev pub held : ℕ → Lifetime C → ℕ
  held t w = store.queued t w.runner.io_context + store.timed t w.runner.io_context

  -- `m_currentTask.expired()`
  abbrev pub has_expired : Option ℕ → Lifetime C → Bool
  has_expired none w = true
  has_expired (some t) w = held t w == 0

  unfoldable pub expired : Lifetime C → Bool
  expired w = has_expired w.current_task w

  -- `startScanning`
  unfoldable pub start_on : Scanner → Lifetime C → Lifetime C
  start_on s w = record {
    scanner = some (Scanner.start_scanning s);
    packets = w.packets;
    runner = Runner.post store.io w.next w.runner;
    current_task = some w.next;
    next = w.next + 1;
  }

  abbrev pub on_scanner {κ} : {A : Type κ} → Option Scanner → (Scanner → A) → Option A
  on_scanner none use_it = none
  on_scanner (some s) use_it = some (use_it s)

  -- What a run of the polling task leaves.
  abbrev pub after : Lifetime C → (Scanner × List ReceivedPacket) × TaskRunner C → Lifetime C
  after w ((s, rest), r) = record w { scanner = some s; packets = rest; runner = r }

  -- The handler of a timer.
  unfoldable pub fire_timer : ℕ → Lifetime C → Lifetime C
  fire_timer t w = record w {
    runner =
        on_timer store.io t
          (record w.runner { io_context = store.take_timer t w.runner.io_context });
  }

  abbrev pub await_on : (Lifetime C → Awaited C) → Option (Lifetime C) → Awaited C
  await_on loop none = faulted
  await_on loop (some w) = loop w

  module _ (decimal : ℕ → Str) (parse : List ℕ → Frame) where
    -- The handler of a task: the task is run, and the runner resolves its answer.
    unfoldable pub run_handler : ℕ → ℕ → Lifetime C → Option (Lifetime C)
    run_handler now t w = on_scanner w.scanner (λ s. after w (
        resolve store.io
          (λ (task : ℕ) (p : Scanner × List ReceivedPacket). poll decimal parse now p.1 p.0) t
          (s, w.packets)
          (record w.runner { io_context = store.take_handler t w.runner.io_context })))

    unfoldable pub serve : ℕ → ℕ → Lifetime C → Option (Lifetime C)
    serve now t w = elim (store.queued t w.runner.io_context == 0) [
      | false ↦ run_handler now t w
      | true ↦ elim (store.timed t w.runner.io_context == 0) [
        | false ↦ some (fire_timer t w)
        | true ↦ some w
      ]
    ]

    abbrev pub happen : Event → Lifetime C → Option (Lifetime C)
    happen started w = on_scanner w.scanner (λ s. start_on s w)
    happen told_to_stop w =
        on_scanner w.scanner (λ s. record w { scanner = some (Scanner.stop_scanning s) })
    happen destroyed w = some (record w { scanner = none })
    happen (arrived packet) w = some (record w { packets = w.packets ++ (packet ∷ []) })
    happen (served now t) w = serve now t w

    -- What happens in turn; nothing happens after a use of a scanner that was destroyed.
    abbrev pub history_from : List Event → Option (Lifetime C) → Option (Lifetime C)
    history_from [] w = w
    history_from (e ∷ es) none = none
    history_from (e ∷ es) (some w) = history_from es (happen e w)

    unfoldable pub history : List Event → Lifetime C → Option (Lifetime C)
    history es w = history_from es (some w)

    -- The loop of `stopScanning`, which looks before each of the events whether the task is gone.
    unfoldable pub await : List Event → Lifetime C → Awaited C
    await [] w = elim (expired w) [ true ↦ left w [] | false ↦ waits w ]
    await (e ∷ es) w = elim (expired w) [
      | true ↦ left w (e ∷ es)
      | false ↦ await_on (await es) (happen e w)
    ]

    -- `stopScanning`
    unfoldable pub stop_scanning : List Event → Lifetime C → Awaited C
    stop_scanning es w = await_on (await es) (happen told_to_stop w)
