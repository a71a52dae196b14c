-- ===== src/Util/Promises.antt =====
-- `std::promise` and `std::future` of the standard library: the futures that have been handed out,
-- each by its number, with what its shared state holds.
pub mod Tracking
pub mod Keeping
pub mod Renewing
use cpp_grcp_testground.Prelude.{
  ℕ, suc, Bool, true, false, Option, none, some, List, [], ◌∷◌, ◌==◌, ◌||◌, if◌then◌else◌,
}
use cpp_grcp_testground.Prelude.Map.{Order, Map, lookup, insert}

-- `broken` is the exception `broken_promise`, stored when a promise is destroyed without a value.
pub data Future {ℓ} (R : Type ℓ) : Type ℓ where
  waiting broken : Future R
  ready : R → Future R

pub record Promises {ℓ} (R : Type ℓ) : Type ℓ where
  pub next : ℕ
  pub state : ℕ → Future R

module _ {ℓ} {R : Type ℓ} where
  abbrev pub set_state : ℕ → Future R → Promises R → Promises R
  set_state i f ps = record ps { state = λ j. if j == i then f else ps.state j }

  -- A new promise; its number is `ps.next`.
  abbrev pub make_promise : Promises R → Promises R
  make_promise ps = record (set_state ps.next waiting ps) { next = suc ps.next }

  abbrev pub waits : Future R → Bool
  waits waiting = true
  waits broken = false
  waits (ready _) = false

  -- What `set_value` leaves; a second one throws, and leaves the value that is there. Where a second
  -- one can come, the caller models the exception (`Snmp.Client.unless_set`).
  abbrev pub set_value : ℕ → R → Promises R → Promises R
  set_value i r ps = if waits (ps.state i) then set_state i (ready r) ps else ps

  -- The destruction of a promise.
  abbrev pub drop_promise : ℕ → Promises R → Promises R
  drop_promise i ps = if waits (ps.state i) then set_state i broken ps else ps

-- Whether a request, if there is one, owns a promise.
abbrev pub owner_is {κ} : {V : Type κ} → (V → ℕ) → Option V → ℕ → Bool
owner_is promise none j = false
owner_is promise (some v) j = j == promise v

-- The destruction of the promise of the request, if any, whose place another one takes.
abbrev pub displace {κ μ} : {V : Type κ} {R : Type μ} → (V → ℕ) → Option V → Promises R → Promises R
displace promise none ps = ps
displace promise (some old) ps = drop_promise (promise old) ps

-- `requests[k] = request`, where the request holds a promise that was just made.
abbrev pub assign {ℓ κ μ} :
    {K : Type ℓ} {V : Type κ} {R : Type μ} ⦃o : Order K⦄
    → (V → ℕ)
    → K
    → V
    → Map K V
    → Promises R
    → Map K V × Promises R
assign promise k v m ps = (insert k v m, displace promise (lookup k m) ps)
