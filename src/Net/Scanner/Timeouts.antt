-- ===== src/Net/Scanner/Timeouts.antt =====
-- What `handleTimeouts` does to each request.
use cpp_grcp_testground.Prelude.{
  ℕ, ◌≡◌, refl, true, false, Option, none, some, [], ◌∷◌, if◌then◌else◌, Str, err, arith,
  Bool-cases, inl, inr, All, ◌∙◌,
}
use cpp_grcp_testground.Prelude.ErrorType.{timed_out}
use cpp_grcp_testground.Prelude.Map.{
  Map, same, lookup, erase, lookup-erase, IsSorted, After, same_refl,
}
use cpp_grcp_testground.Prelude.Strings.{str_order, str_less, str_less_trans, str_same-eq}
use cpp_grcp_testground.Util.Promises.{Future, ready, set_value, waits}
use cpp_grcp_testground.Util.Promises.Tracking.{
  Distinct, holds, holds-lookup, lookup-After, IsSorted-After,
}
use cpp_grcp_testground.Util.Promises.Keeping.{set_value-Tracks, lookup-waits}
use cpp_grcp_testground.Models.Time.{has_passed}
use cpp_grcp_testground.Net.Scanner.{
  Scanner, Request, promise_of, PingResult, sweep, handle_timeouts,
}
use cpp_grcp_testground.Net.Scanner.Requests.{IsConsistent}

-- The entries that are left to look at are still in the table, and their keys rise.
abbrev AreIn : Map Str Request → Map Str Request → Type 0
AreIn m = All (λ e. lookup e.0 m ≡ some e.1)

abbrev expire : ℕ → Option Request → Option Request
expire now none = none
expire now (some r) = if has_passed now r.time 5 then none else some r

abbrev pub remove : Str → Request → Scanner → Scanner
remove key request s = record s {
  pending_requests = erase key s.pending_requests;
  futures =
      set_value request.promise (err (record { dst_ip = request.dst_ip; error = timed_out }))
        s.futures;
}

-- A key that comes after another is a different one.
less-ne-same : (k j : Str) → str_less k j ≡ true → same j k ≡ false
less-ne-same k j h = ground arith

After-below : (x y : Str) (l : Map Str Request) → str_less x y ≡ true → After y l → After x l
After-below x y [] p b = tt
After-below x y ((z, _) ∷ l) p b = (str_less_trans x y z p b.0, b.1)

lookup_head : (k : Str) (r : Request) (m : Map Str Request) → lookup k ((k, r) ∷ m) ≡ some r
unfolding lookup
lookup_head k r m = rw (same_refl k)

AreIn-erase :
    (k : Str) (rest m : Map Str Request) → After k rest → AreIn m rest → AreIn (erase k m) rest
AreIn-erase k [] m a h = tt
AreIn-erase k ((j, r) ∷ rest) m a h = (
  rw (lookup-erase j k m, less-ne-same k j a.0) h.0,
  AreIn-erase k rest m (After-below k j rest a.0 a.1) h.1,
)

-- One request that has expired is removed.
remove-IsConsistent :
    (key : Str) (r : Request) (s : Scanner)
    → IsConsistent s
    → lookup key s.pending_requests ≡ some r
    → IsConsistent (remove key r s)
remove-IsConsistent key r s c e =
    set_value-Tracks promise_of s.pending_requests s.futures key r _ c e

sweep-IsConsistent :
    (now : ℕ) (rest : Map Str Request) (s : Scanner)
    → IsConsistent s
    → IsSorted rest
    → AreIn s.pending_requests rest
    → IsConsistent (sweep now rest s)
unfolding sweep
sweep-IsConsistent now [] s c o h = c
sweep-IsConsistent now ((key, r) ∷ rest) s c o h =
    let later = IsSorted-After promise_of key rest o in
    elim (Bool-cases (has_passed now r.time 5)) [
      | inl old ↦
          rw (old, sweep)
            (sweep-IsConsistent now rest (remove key r s) (remove-IsConsistent key r s c h.0) later
              (AreIn-erase key rest s.pending_requests o h.1))
      | inr young ↦ rw (young, sweep) (sweep-IsConsistent now rest s c later h.1)
    ]

-- What the loop leaves under a key, given what it still has to look at there.
abbrev swept : ℕ → Option Request → Option Request → Option Request
swept now none current = current
swept now (some r) current = expire now (some r)

lookup-sweep :
    (now : ℕ) (rest : Map Str Request) (s : Scanner) (k : Str)
    → IsSorted rest
    → AreIn s.pending_requests rest
    → lookup k (sweep now rest s).pending_requests
      ≡ swept now (lookup k rest) (lookup k s.pending_requests)
unfolding sweep lookup
lookup-sweep now [] s k o h = refl
lookup-sweep now ((key, r) ∷ rest) s k o h =
    let m = s.pending_requests in
    let later = IsSorted-After promise_of key rest o in
    elim (Bool-cases (has_passed now r.time 5)) [
      | inl old ↦
          rw (old, sweep)
            (lookup-sweep now rest (remove key r s) k later (AreIn-erase key rest m o h.1)
              ∙ ground (arith, lookup-erase k key m, lookup-After promise_of key k rest o))
      | inr young ↦
          rw (young, sweep)
            (lookup-sweep now rest s k later h.1
              ∙ ground (arith, h.0, str_same-eq k key, lookup-After promise_of key k rest o))
    ]

-- The loop changes no future but those of the requests that it looks at.
sweep_others :
    (now : ℕ) (rest : Map Str Request) (s : Scanner) (j : ℕ)
    → holds promise_of j rest ≡ false
    → (sweep now rest s).futures.state j ≡ s.futures.state j
unfolding sweep
sweep_others now [] s j h = refl
sweep_others now ((key, r) ∷ rest) s j h = elim (Bool-cases (has_passed now r.time 5)) [
  | inl old ↦
      rw (old, sweep) (sweep_others now rest (remove key r s) j (ground arith) ∙ ground arith)
  | inr young ↦ rw (young, sweep) (sweep_others now rest s j (ground arith))
]

-- The future of a request that has waited for five seconds.
abbrev verdict : ℕ → Request → Future PingResult → Future PingResult
verdict now r before =
    if has_passed now r.time 5
    then ready (err (record { dst_ip = r.dst_ip; error = timed_out }))
    else before

sweep_future :
    (now : ℕ) (rest : Map Str Request) (s : Scanner) (k : Str) (r : Request)
    → Distinct promise_of rest
    → lookup k rest ≡ some r
    → waits (s.futures.state r.promise) ≡ true
    → (sweep now rest s).futures.state r.promise ≡ verdict now r (s.futures.state r.promise)
unfolding sweep lookup
sweep_future now [] s k r d e w = cc
sweep_future now ((key, r') ∷ rest) s k r d e w =
    let owned = holds-lookup promise_of k r rest in
    elim (Bool-cases (has_passed now r'.time 5)) [
      | inl old ↦
          rw (old, sweep)
            (ground (
              arith,
              owned,
              sweep_others now rest (remove key r' s) r.promise,
              sweep_future now rest (remove key r' s) k r d.1,
            ))
      | inr young ↦
          rw (young, sweep)
            (ground
              (arith, owned, sweep_others now rest s r.promise, sweep_future now rest s k r d.1))
    ]

AreIn-cons :
    (k : Str) (r : Request) (m rest : Map Str Request)
    → After k rest
    → AreIn m rest
    → AreIn ((k, r) ∷ m) rest
unfolding lookup
AreIn-cons k r m [] a h = tt
AreIn-cons k r m ((j, w) ∷ rest) a h =
    (rw (less-ne-same k j a.0) h.0, AreIn-cons k r m rest (After-below k j rest a.0 a.1) h.1)

AreIn-self : (m : Map Str Request) → IsSorted m → AreIn m m
AreIn-self [] o = tt
AreIn-self ((k, r) ∷ m) o =
    (lookup_head k r m, AreIn-cons k r m m o (AreIn-self m (IsSorted-After promise_of k m o)))

-- `handleTimeouts` keeps requests and futures in agreement. A request that was sent five seconds ago
-- or earlier is taken out, and its future gets an error that names its address and says that it
-- timed out; a younger request and its future stay as they are.
pub handle_timeouts-expire :
    (now : ℕ) (s : Scanner) (k : Str) (r : Request)
    → IsConsistent s
    → lookup k s.pending_requests ≡ some r
    → let s' = handle_timeouts now s in
      IsConsistent s'
      × (lookup k s'.pending_requests ≡ (if has_passed now r.time 5 then none else some r))
      × (s'.futures.state r.promise ≡ (
          if has_passed now r.time 5
          then ready (err (record { dst_ip = r.dst_ip; error = timed_out }))
          else s.futures.state r.promise))
unfolding handle_timeouts
handle_timeouts-expire now s k r c e =
    let m = s.pending_requests in
    let all = AreIn-self m c.sorted in
    (
      sweep-IsConsistent now m s c c.sorted all,
      lookup-sweep now m s k c.sorted all ∙ rw e,
      sweep_future now m s k r c.distinct e (lookup-waits promise_of m s.futures k r c e),
    )

pub handle_timeouts-IsConsistent :
    (now : ℕ) (s : Scanner) → IsConsistent s → IsConsistent (handle_timeouts now s)
unfolding handle_timeouts
handle_timeouts-IsConsistent now s c =
    sweep-IsConsistent now s.pending_requests s c c.sorted (AreIn-self s.pending_requests c.sorted)
