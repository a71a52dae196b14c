-- ===== src/Tests/Lifetimes.antt =====
-- A scanner in a runner that counts how often it holds each task.
use cpp_grcp_testground.Prelude.{
  ℕ, suc, ◌+◌, ◌-◌, ◌≡◌, ◌≢◌, refl, Bool, true, false, none, some, List, [], ◌∷◌, ◌==◌,
  if◌then◌else◌, arith,
}
use cpp_grcp_testground.Async.Runner.{IoContext, post, resolve, post_delayed}
use cpp_grcp_testground.Net.Scanner.{start_scanning, stop_scanning, poll, has_pending_requests}
use cpp_grcp_testground.Net.Scanner.Lifetime
use cpp_grcp_testground.Net.Scanner.Lifetime.{
  TaskStore, Lifetime, Event, started, told_to_stop, destroyed, arrived, served, expired, held,
  history, start_on, serve, run_handler, fire_timer,
}
use cpp_grcp_testground.Net.Scanner.Lifetime.Ending.{HasEnded, stop_scanning-returns}
use cpp_grcp_testground.Net.Scanner.Lifetime.Use.{Orderly, stopped-Unused}
use cpp_grcp_testground.Net.Scanner.Lifetime.Restart.{restarted-faults}
use cpp_grcp_testground.Net.Scanner.Lifetime.Serving.{IsAnswered}
use cpp_grcp_testground.Net.Scanner.Lifetime.Answering.{history-IsAnswered}
use cpp_grcp_testground.Models.Time.{has_passed}
use cpp_grcp_testground.Net.IPv4Address.{to_string}
use cpp_grcp_testground.Tests.Data
use cpp_grcp_testground.Tests.Data.{
  decimal, parse, idle, noise, host, request, pinged-IsConsistent, pinged-pending,
}

pub record Held : Type 0 where
  pub queue : ℕ → ℕ
  pub timers : ℕ → ℕ
  pub count : ℕ
  pub stopped : Bool

-- The table with `f` applied at one place.
abbrev at : ℕ → (ℕ → ℕ) → (ℕ → ℕ) → ℕ → ℕ
at u f table t = if t == u then f (table t) else table t

abbrev holding : IoContext ℕ Held
holding = record {
  post_handler = λ u c. record c { queue = at u suc c.queue; count = suc c.count };
  start_timer = λ ms u c. record c { timers = at u suc c.timers; count = suc c.count };
  stop_context = λ c. record c { stopped = true };
  is_stopped = λ c. c.stopped;
  pending = λ c. c.count;
  post_adds = λ u c. refl;
  timer_adds = λ ms u c. refl;
  stop_stops = λ c. refl;
}

abbrev less_one : ℕ → ℕ
less_one n = n - 1

at-suc : (t u : ℕ) (table : ℕ → ℕ) → at u suc table t ≡ table t + (if t == u then 1 else 0)
at-suc t u table = ground arith

at-less_one :
    (t u : ℕ) (table : ℕ → ℕ) → at u less_one table t ≡ table t - (if t == u then 1 else 0)
at-less_one t u table = ground arith

abbrev store : TaskStore Held
store = record {
  io = holding;
  queued = λ t c. c.queue t;
  timed = λ t c. c.timers t;
  take_handler = λ u c. record c { queue = at u less_one c.queue };
  take_timer = λ u c. record c { timers = at u less_one c.timers };
  post_queued = λ t u c. at-suc t u c.queue;
  post_timed = λ t u c. refl;
  timer_queued = λ t u ms c. refl;
  timer_timed = λ t u ms c. at-suc t u c.timers;
  post_stopped = λ u c. refl;
  fired_stopped = λ u c. refl;
  handled_stopped = λ u c. refl;
  handled_queued = λ t u c. at-less_one t u c.queue;
  handled_timed = λ t u c. refl;
  fired_queued = λ t u c. refl;
  fired_timed = λ t u c. at-less_one t u c.timers;
}

abbrev fresh : Lifetime Held
fresh = record {
  scanner = some idle;
  packets = [];
  runner = record {
    io_context = record { queue = λ t. 0; timers = λ t. 0; count = 0; stopped = false };
    is_alive = true;
  };
  current_task = none;
  next = 0;
}

abbrev before : List Event
before = started ∷ served 5 0 ∷ arrived noise ∷ []

-- The scanner after it was started and polled once: a timer holds its task.
abbrev polled : Lifetime Held
polled = record {
  scanner = some (record idle { running = true });
  packets = noise ∷ [];
  runner = record {
    io_context = record {
      queue = at 0 less_one (at 0 suc (λ t. 0));
      timers = at 0 suc (λ t. 0);
      count = 2;
      stopped = false;
    };
    is_alive = true;
  };
  current_task = some 0;
  next = 1;
}

before-polled : history store decimal parse before fresh ≡ some polled
unfolding history start_on serve run_handler resolve post post_delayed poll start_scanning
    has_pending_requests
before-polled = refl

abbrev while_waiting : List Event
while_waiting = served 6 0 ∷ arrived noise ∷ served 7 3 ∷ served 8 0 ∷ served 9 0 ∷ []

stop_scanning-returns_example :
    HasEnded store decimal parse 0 (Lifetime.stop_scanning store decimal parse while_waiting polled)
stop_scanning-returns_example =
    stop_scanning-returns store decimal parse before fresh polled (record idle { running = true }) 0
      while_waiting (λ u. refl) before-polled refl refl tt (omega arith)

abbrev and_stopped : List Event
and_stopped = started ∷ told_to_stop ∷ served 5 0 ∷ []

abbrev after_stop : Lifetime Held
after_stop = record fresh {
  scanner = some (record idle { running = false });
  runner = record {
    io_context = record {
      queue = at 0 less_one (at 0 suc (λ t. 0));
      timers = λ t. 0;
      count = 1;
      stopped = false;
    };
    is_alive = true;
  };
  current_task = some 0;
  next = 1;
}

and_stopped-after_stop : history store decimal parse and_stopped fresh ≡ some after_stop
unfolding history start_on serve run_handler resolve post poll start_scanning stop_scanning
and_stopped-after_stop = refl

after_stop-expired : expired store after_stop ≡ true
unfolding expired
after_stop-expired = refl

stopped-Unused_example :
    history store decimal parse (destroyed ∷ arrived noise ∷ served 6 0 ∷ []) after_stop ≢ none
stopped-Unused_example =
    stopped-Unused store decimal parse and_stopped fresh after_stop
      (arrived noise ∷ served 6 0 ∷ []) (λ u. refl) fresh-orderly and_stopped-after_stop
      after_stop-expired tt
  where
    fresh-orderly : Orderly store decimal parse and_stopped (some fresh)
    fresh-orderly = unfold expired start_on serve run_handler in (refl, (tt, (tt, tt)))

restarted-faults_example :
    (w' : Lifetime Held) × (history store decimal parse
        (started ∷ started ∷ told_to_stop ∷ served 5 1 ∷ [])
        fresh
      ≡ some w')
    × (expired store w' ≡ true)
    × (history store decimal parse (destroyed ∷ served 6 0 ∷ served 7 0 ∷ []) w' ≡ none)
restarted-faults_example =
    restarted-faults store decimal parse 5 6 7 idle fresh refl refl refl (λ t. refl)

-- A host was pinged, and the runner has polled the scanner in vain.
abbrev pinging : Lifetime Held
pinging = record polled { scanner = some Data.pinged }

abbrev late : List Event
late =
    served 6_000_000_000 0
    ∷ arrived noise
    ∷ served 6_000_000_001 0
    ∷ served 6_000_000_002 0
    ∷ served 6_000_000_003 0
    ∷ []

history-IsAnswered_example :
    IsAnswered decimal (to_string decimal host) request (history store decimal parse late pinging)
unfolding has_passed cpp_grcp_testground.Net.Scanner.ping_async
history-IsAnswered_example =
    history-IsAnswered store decimal parse late 0 (to_string decimal host) request Data.pinged
      pinging refl pinged-IsConsistent refl pinged-pending refl refl (omega arith)
      ((refl, refl), (tt, ((refl, refl), ((refl, refl), ((refl, refl), tt))))) (omega arith)
