-- ===== src/Async/Thread.antt =====
-- core/core/util/Thread.h and Thread.cpp: a thread with a name and a token that asks it to stop.
use cpp_grcp_testground.Prelude.{
  ℕ, ◌+◌, ◌≤◌, ◌≡◌, Option, none, some, [], ◌∷◌, ◌++◌, Str, length, length-append, leb,
  if◌then◌else◌, arith,
}

pub data StopTokenValue : Type 0 where
  continue_on stop_now : StopTokenValue

-- Where the function of a thread is: not begun, running or returned.
pub data Phase : Type 0 where
  spawned running returned : Phase

-- `name` is what the operating system shows.
pub record Thread : Type 0 where
  pub stop_token : StopTokenValue
  pub name : Str
  pub phase : Phase

unfoldable pub request_stop : Thread → Thread
request_stop t = record t { stop_token = stop_now }

-- `pthread_setname` is the operating system's, with the name that the thread had; `exe` is the name of
-- the executable, and `none` the failed assertion.
unfoldable pub set_name : (Str → Str → Str) → Str → Str → Thread → Option Thread
set_name pthread_setname exe name t =
    let thread_name = exe ++ (32 ∷ name) in
    if leb (length thread_name) 16
    then some (record t { name = pthread_setname thread_name t.name })
    else none

-- The constructor, in which the operating system gives a new thread the name of the executable.
unfoldable pub spawn : (Str → Str → Str) → Str → Str → Option Thread
spawn pthread_setname exe [] =
    some (record { stop_token = continue_on; name = exe; phase = spawned })
spawn pthread_setname exe (c ∷ name) =
    set_name pthread_setname exe (c ∷ name)
      (record { stop_token = continue_on; name = exe; phase = spawned })

-- What `pthread_setname_np` is documented to do: a name of fifteen bytes at most is set, and a longer
-- one is refused.
pub record IsSetname (pthread_setname : Str → Str → Str) : Type 0 where
  pub sets : (name old : Str) → length name ≤ 15 → pthread_setname name old ≡ name
  pub refuses : (name old : Str) → 16 ≤ length name → pthread_setname name old ≡ old

-- How a thread with a name that is not empty comes out, by the length of its own and the executable's:
-- it is called by both if they and the space between them have at most fifteen bytes, it keeps the
-- executable's if they have sixteen, and the assertion fails if they have more.
pub spawn-name :
    (pthread_setname : Str → Str → Str) (exe : Str) (c : ℕ) (name : Str)
    → IsSetname pthread_setname
    → spawn pthread_setname exe (c ∷ name) ≡ (
        if leb (length exe + length name) 13
        then some
            (record { stop_token = continue_on; name = exe ++ (32 ∷ c ∷ name); phase = spawned })
        else if leb (length exe + length name) 14
        then some (record { stop_token = continue_on; name = exe; phase = spawned })
        else none)
unfolding spawn set_name
spawn-name pthread_setname exe c name os = ground (
  arith,
  os.sets (exe ++ (32 ∷ c ∷ name)) exe,
  os.refuses (exe ++ (32 ∷ c ∷ name)) exe,
  length-append exe (32 ∷ c ∷ name),
)
