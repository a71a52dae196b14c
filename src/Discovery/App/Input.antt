-- ===== src/Discovery/App/Input.antt =====
-- app/main.cpp: the loop that reads characters and acts on them.
use native.Mathlib.Nat.{zero-add, suc-add}
use mathlib.Core.List.{append-nil}
use cpp_grcp_testground.Prelude.{
  ◌∙◌, ap, sym, ℕ, zero, suc, ◌+◌, ◌≡◌, ◌≢◌, ◌⊎◌, refl, Bool, true, false, some, List, [], ◌∷◌,
  ◌++◌, Str, length, ◌==◌, if◌then◌else◌, All, arith, length-append,
}
use cpp_grcp_testground.Models.Time.{ℤ, pos, negsuc}
use cpp_grcp_testground.Net.IPv4Address.{localhost}
use cpp_grcp_testground.Async.Runner.{IoContext, TaskRunner}
use cpp_grcp_testground.Snmp.Values.{Library}
use cpp_grcp_testground.Snmp.Client.{SnmpClient, Sent}
use cpp_grcp_testground.Snmp.Service.{request_system}
use cpp_grcp_testground.Discovery.Service.{TaskOps, clear_results}

-- What `main` holds while it reads: the discovery tasks `T`, the SNMP client, the default runner with
-- the context `C`, and what was sent so far.
pub record AppState {ℓ κ} (T : Type ℓ) (C : Type κ) : Type (ℓ ⊔ κ) where
  pub tasks : List T
  pub client : SnmpClient
  pub runner : TaskRunner C
  pub sent : List Sent

-- `std::getchar` of the C library, on the bytes that are left: `EOF`, which is -1, once there are none.
abbrev pub getchar : List ℕ → ℤ × List ℕ
getchar [] = (negsuc 0, [])
getchar (c ∷ input) = (pos c, input)

pub data Command : Type 0 where
  leave ignore clear request : Command

-- The tests on a character: 0 ends the loop, as `q` does; a new line and `c` are the others that are
-- named.
abbrev pub command : ℤ → Command
command (negsuc n) = request
command (pos c) =
    if c == 0
    then leave
    else if c == 10
    then ignore
    else if c == 113
    then leave
    else if c == 99
    then clear
    else request

abbrev pub leaves : Command → Bool
leaves leave = true
leaves ignore = false
leaves clear = false
leaves request = false

-- A character that neither is `q` nor 0.
abbrev pub Stays : ℕ → Type 0
Stays c = (c ≢ 0) × (c ≢ 113)

Stays-leaves : (c : ℕ) → Stays c → leaves (command (pos c)) ≡ false
Stays-leaves c h = ground (arith, h.0, h.1)

ends_loop : (q : ℕ) → (q ≡ 0) ⊎ (q ≡ 113) → leaves (command (pos q)) ≡ true
ends_loop q h = ground arith

module _ {ℓ κ μ} {T : Type ℓ} {C : Type κ} {W : Type μ} (ops : TaskOps T W) (io : IoContext ℕ C)
    (decimal : ℕ → Str) (lib : Library) (uuid : ℕ → Str) where
  -- The identifier of a request is generated.
  unfoldable pub send_request : AppState T C → AppState T C
  send_request s =
      let asked =
        request_system decimal lib io (uuid (length s.sent)) localhost (some 1613) s.client
          s.runner in
      record s { client = asked.0.0; runner = asked.1; sent = s.sent ++ (asked.0.1 ∷ []) }

  unfoldable pub clear_all : AppState T C → AppState T C
  clear_all s = record s { tasks = clear_results ops s.tasks }

  abbrev pub perform : Command → AppState T C → AppState T C
  perform leave s = s
  perform ignore s = s
  perform clear s = clear_all s
  perform request s = send_request s

  abbrev go_on : Bool → (AppState T C → Bool × AppState T C) → AppState T C → Bool × AppState T C
  go_on true rest s = (true, s)
  go_on false rest s = rest s

  -- The loop, with whether it has ended; `fuel` is how many characters it is watched for.
  unfoldable pub input_loop : ℕ → List ℕ → AppState T C → Bool × AppState T C
  input_loop zero input s = (false, s)
  input_loop (suc fuel) input s =
      let read = getchar input in
      go_on (leaves (command read.0)) (input_loop fuel read.1) (perform (command read.0) s)

  -- What characters come to that do not end the loop.
  abbrev pub perform_all : List ℕ → AppState T C → AppState T C
  perform_all [] s = s
  perform_all (c ∷ cs) s = perform_all cs (perform (command (pos c)) s)

  input_loop-append :
      (cs input : List ℕ) (fuel : ℕ) (s : AppState T C)
      → All Stays cs
      → input_loop (length cs + fuel) (cs ++ input) s ≡ input_loop fuel input (perform_all cs s)
  unfolding input_loop
  input_loop-append [] input fuel s stays = rw (zero-add fuel) refl
  input_loop-append (c ∷ cs) input fuel s stays =
      rw (suc-add (length cs) fuel, input_loop, Stays-leaves c stays.0)
        (input_loop-append cs input fuel (perform (command (pos c)) s) stays.1)

  perform-leaves : (c : Command) (s : AppState T C) → leaves c ≡ true → perform c s ≡ s
  perform-leaves leave s h = refl
  perform-leaves ignore s h = refl
  perform-leaves clear s h = ground arith
  perform-leaves request s h = ground arith

  -- The loop ends at the first character that is `q` or 0, having acted on the characters before it
  -- in their order and on none behind it.
  pub input_loop-ends :
      (cs rest : List ℕ) (q fuel : ℕ) (s : AppState T C)
      → All Stays cs
      → (q ≡ 0) ⊎ (q ≡ 113)
      → input_loop (length cs + suc fuel) (cs ++ (q ∷ rest)) s ≡ (true, perform_all cs s)
  unfolding input_loop
  input_loop-ends cs rest q fuel s stays ends =
      input_loop-append cs (q ∷ rest) (suc fuel) s stays
      ∙ rw
          (
            input_loop,
            ends_loop q ends,
            perform-leaves (command (pos q)) (perform_all cs s) (ends_loop q ends),
          )
          refl

  input_loop-eof :
      (n : ℕ) (s : AppState T C)
      → let r = input_loop n [] s in (r.0 ≡ false) × (length r.1.sent ≡ n + length s.sent)
  unfolding input_loop send_request
  input_loop-eof zero s = (refl, omega arith)
  input_loop-eof (suc n) s =
      let r = input_loop-eof n (send_request s) in (r.0, rw (r.1, length-append) (omega arith))

  -- If the input ends before the loop was left, the loop goes on for ever: after the characters there
  -- are it has not ended however long it is watched, and it has sent a further request in each round.
  pub input_loop-endless :
      (cs : List ℕ) (n : ℕ) (s : AppState T C)
      → All Stays cs
      → let r = input_loop (length cs + n) cs s in
        (r.0 ≡ false) × (length r.1.sent ≡ n + length (perform_all cs s).sent)
  input_loop-endless cs n s stays = rw watched (input_loop-eof n (perform_all cs s))
    where
      watched : input_loop (length cs + n) cs s ≡ input_loop n [] (perform_all cs s)
      watched =
          ap (λ input. input_loop (length cs + n) input s) (sym (append-nil cs))
          ∙ input_loop-append cs [] n s stays
