-- ===== src/Tests/Threads.antt =====
-- Threads that serve a context which counts its handlers.
use cpp_grcp_testground.Prelude.{
  ℕ, suc, ◌-◌, ◌≡◌, refl, Bool, true, false, some, [], ◌∷◌, Str, length, leb, if◌then◌else◌, arith,
}
use cpp_grcp_testground.Async.Runner.{IoContext, destroy}
use cpp_grcp_testground.Async.Thread.{
  Thread, Phase, spawned, running, returned, IsSetname, spawn, spawn-name, continue_on,
}
use cpp_grcp_testground.Async.Context.{RunLoop, TaskContext, ServedRunner, create}
use cpp_grcp_testground.Async.Context.Ending.{
  turned, posted, asked_to_stop, history, late_history, has_returned, create-serves,
  destroy-returns,
}

-- How many handlers there are, whether the context was stopped and whether it is guarded.
abbrev pub Counter : Type 0
Counter = ℕ × (Bool × Bool)

abbrev pub counting : IoContext ℕ Counter
counting = record {
  post_handler = λ task c. (suc c.0, c.1);
  start_timer = λ delay task c. (suc c.0, c.1);
  stop_context = λ c. (c.0, (true, c.1.1));
  is_stopped = λ c. c.1.0;
  pending = λ c. c.0;
  post_adds = λ task c. refl;
  timer_adds = λ delay task c. refl;
  stop_stops = λ c. refl;
}

abbrev loop : RunLoop ℕ Counter
loop = record {
  io = counting;
  handle = λ c. (c.0 - 1, c.1);
  make_guard = λ c. (c.0, (c.1.0, true));
  has_guard = λ c. c.1.1;
  guard_made = λ c. refl;
  guard_stopped = λ c. refl;
  handle_guard = λ c. refl;
  handle_stopped = λ c. refl;
  post_guard = λ task c. refl;
  post_stopped = λ task c. refl;
}

abbrev setname : Str → Str → Str
setname name old = if leb (length name) 15 then name else old

setname-IsSetname : IsSetname setname
setname-IsSetname = record {
  sets = λ name old h. ground arith;
  refuses = λ name old h. ground arith;
}

-- The text `app`.
abbrev exe : Str
exe = 97 ∷ 112 ∷ 112 ∷ []

abbrev made : TaskContext Counter
made = record {
  io_context = (0, (false, false));
  thread = record {
    stop_token = continue_on;
    name = 97 ∷ 112 ∷ 112 ∷ 32 ∷ 84 ∷ 97 ∷ 115 ∷ 107 ∷ 67 ∷ 111 ∷ 110 ∷ 116 ∷ 101 ∷ 120 ∷ 116 ∷ [];
    phase = spawned;
  };
}

made-create : create setname exe (0, (false, false)) ≡ some made
unfolding create spawn cpp_grcp_testground.Async.Thread.set_name
made-create = refl

create-serves_example :
    has_returned
      (history loop
        (turned ∷ posted 4 ∷ asked_to_stop ∷ turned ∷ turned ∷ turned ∷ [])
        made).thread.phase
    ≡ false
create-serves_example =
    create-serves loop setname exe (0, (false, false)) made
      (turned ∷ posted 4 ∷ asked_to_stop ∷ turned ∷ turned ∷ turned ∷ []) refl made-create

abbrev served : ServedRunner Counter
served = record {
  runner = record { io_context = (3, (false, true)); is_alive = true };
  service_thread = made.thread;
}

destroy-returns_example :
    (late_history loop
      (turned ∷ posted 4 ∷ turned ∷ [])
      (record served { runner = destroy counting served.runner })).service_thread.phase
    ≡ returned
destroy-returns_example =
    destroy-returns loop served (turned ∷ posted 4 ∷ turned ∷ []) (omega arith)
