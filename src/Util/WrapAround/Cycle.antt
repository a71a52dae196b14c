-- ===== src/Util/WrapAround/Cycle.antt =====
-- Which values are stored between which limits, and how `++` and `--` go round there.
use Prim.Native.Nat.{zero, suc}
use native.Mathlib.Nat.{mod-eq_of_lt, mod_self, add-mod_right, zero-add}
use cpp_grcp_testground.Prelude.{
  ℕ, ◌+◌, ◌-◌, ◌%◌, ◌≤◌, ◌<◌, ◌≡◌, ◌⊎◌, arith, ◌==◌, ◌∙◌, ap, Bool-cases, inl, inr, if◌then◌else◌,
}
use cpp_grcp_testground.Util.WrapAround.{Limits, wrap, initial, construct, increment, decrement}

-- What the template's arguments are taken to be: an interval of the machine type.
pub record IsInterval (t : Limits) : Type 0 where
  pub ordered : t.min_value ≤ t.max_value
  pub in_type : t.max_value ≤ t.top

abbrev pub IsWithin : Limits → ℕ → Type 0
IsWithin t v = (t.min_value ≤ v) × (v ≤ t.max_value)

-- The limits are the machine type's own.
abbrev pub IsNatural : Limits → Type 0
IsNatural t = (t.min_value ≡ 0) × (t.max_value ≡ t.top)

-- For an interval of the machine type, the default value, every value that is constructed from a
-- machine value, and every result of `++` and `--` on a stored value lie between the limits.
pub stored-IsWithin :
    (t : Limits) (v w : ℕ)
    → IsInterval t
    → v ≤ t.top
    → IsWithin t w
    → IsWithin t (initial t)
      × IsWithin t (construct t v)
      × IsWithin t (increment t w)
      × IsWithin t (decrement t w)
unfolding initial construct increment decrement wrap
stored-IsWithin t v w i h k =
    let m : (w + 1) % (t.top + 1) < t.top + 1 = omega arith in
    let n : (w + t.top) % (t.top + 1) < t.top + 1 = omega arith in ground arith

-- The machine type's own successor and predecessor.
succ_mod : (v top : ℕ) → v < top → (v + 1) % (top + 1) ≡ v + 1
succ_mod v top h = mod-eq_of_lt (omega arith)

succ_mod_top : (top : ℕ) → (top + 1) % (top + 1) ≡ 0
succ_mod_top top = mod_self (top + 1)

pred_mod : (v top : ℕ) → 0 < v → v ≤ top → (v + top) % (top + 1) ≡ v - 1
pred_mod v top p h =
    let e : v + top ≡ (v - 1) + (top + 1) = omega arith in
    rw (e, add-mod_right (v - 1) (top + 1)) (mod-eq_of_lt (omega arith))

pred_mod_zero : (top : ℕ) → (0 + top) % (top + 1) ≡ top
pred_mod_zero top = rw zero-add (mod-eq_of_lt (omega arith))

-- If the upper limit is below the type's largest value, or both limits are the type's own, `++`
-- goes from the upper limit to the lower one and from any other stored value to its successor.
pub increment_cycles :
    (t : Limits) (v : ℕ)
    → IsInterval t
    → IsWithin t v
    → (t.max_value < t.top) ⊎ IsNatural t
    → increment t v ≡ (if v == t.max_value then t.min_value else v + 1)
unfolding increment wrap
increment_cycles t v i h k = ground (arith, succ_mod v t.top, succ_mod_top t.top)

-- Likewise `--`, if the lower limit is above the type's smallest value or both are the type's own.
pub decrement_cycles :
    (t : Limits) (v : ℕ)
    → IsInterval t
    → IsWithin t v
    → (0 < t.min_value) ⊎ IsNatural t
    → decrement t v ≡ (if v == t.min_value then t.max_value else v - 1)
unfolding decrement wrap
decrement_cycles t v i h k = ground (arith, pred_mod v t.top, pred_mod_zero t.top)

-- Where the upper limit is the type's largest value and the lower limit is not its smallest, the
-- machine type overflows before `wrap` looks: `++` leaves the number at the upper limit.
pub increment_sticks :
    (t : Limits)
    → IsInterval t
    → 0 < t.min_value
    → t.max_value ≡ t.top
    → increment t t.max_value ≡ t.max_value
unfolding increment wrap
increment_sticks t i p e = ground (arith, succ_mod_top t.top)

-- Where the lower limit is the type's smallest value and the upper limit is not its largest, `--`
-- leaves the number at the lower limit.
pub decrement_sticks :
    (t : Limits)
    → IsInterval t
    → t.min_value ≡ 0
    → t.max_value < t.top
    → decrement t t.min_value ≡ t.min_value
unfolding decrement wrap
decrement_sticks t i e p = ground (arith, pred_mod_zero t.top)

-- Both limits inside the type, or both the type's own.
abbrev pub IsCyclic : Limits → Type 0
IsCyclic t = ((0 < t.min_value) × (t.max_value < t.top)) ⊎ IsNatural t

-- On such an interval `--` takes back `++`, and `++` takes back `--`.
pub steps_cancel :
    (t : Limits) (v : ℕ)
    → IsInterval t
    → IsWithin t v
    → IsCyclic t
    → (decrement t (increment t v) ≡ v) × (increment t (decrement t v) ≡ v)
steps_cancel t v i h k = ground (
  arith,
  increment_cycles t v i h,
  decrement_cycles t v i h,
  increment_cycles t (v - 1) i,
  decrement_cycles t (v + 1) i,
  increment_cycles t t.max_value i,
  decrement_cycles t t.min_value i,
)

increment-IsWithin : (t : Limits) (v : ℕ) → IsInterval t → IsWithin t v → IsWithin t (increment t v)
increment-IsWithin t v i h = (stored-IsWithin t v v i (omega arith) h).2

-- `++` made `n` times.
unfoldable pub increments : Limits → ℕ → ℕ → ℕ
increments t zero v = v
increments t (suc n) v = increments t n (increment t v)

-- On an interval that increments cycle through, `n` increments advance the value by `n` modulo the
-- number of values between the limits, both included.
pub increments-mod :
    (t : Limits) (n v : ℕ)
    → IsInterval t
    → IsWithin t v
    → (t.max_value < t.top) ⊎ IsNatural t
    → increments t n v ≡ t.min_value + (v - t.min_value + n) % (t.max_value - t.min_value + 1)
unfolding increments
increments-mod t zero v i h k =
    let e : v - t.min_value + 0 ≡ v - t.min_value = omega arith in
    let small : v - t.min_value < t.max_value - t.min_value + 1 = omega arith in
    rw (e, mod-eq_of_lt small) (omega arith)
increments-mod t (suc n) v i h k =
    let m : ℕ = t.max_value - t.min_value + 1 in
    let after = λ (w : ℕ). t.min_value + (w - t.min_value + n) % m in
    let ih = increments-mod t n (increment t v) i (increment-IsWithin t v i h) k in
    elim (Bool-cases (v == t.max_value)) [
      | inl last ↦
          let e : increment t v ≡ t.min_value = ground (arith, increment_cycles t v i h k) in
          let d : v - t.min_value + suc n ≡ (t.min_value - t.min_value + n) + m = ground arith in
          ih ∙ ap after e ∙ rw (d, add-mod_right)
      | inr more ↦
          let e : increment t v ≡ v + 1 = ground (arith, increment_cycles t v i h k) in
          let d : v - t.min_value + suc n ≡ v + 1 - t.min_value + n = omega arith in
          ih ∙ ap after e ∙ rw d
    ]
