-- ===== src/Util/Sequence.antt =====
-- core/core/util/Sequence.h: ranges that are walked by `++` until the end value is met.
pub mod Walk
use cpp_grcp_testground.Prelude.{
  ℕ, zero, suc, Bool, Option, none, some, List, [], ◌∷◌, if◌then◌else◌,
}

-- What a type of range values provides: its `++` and its `==`.
pub record Steps {ℓ} (T : Type ℓ) : Type ℓ where
  pub next : T → T
  pub equal : T → T → Bool

-- The two values that `Sequence<T>` holds.
pub record Sequence {ℓ} (T : Type ℓ) : Type ℓ where
  pub first : T
  pub last : T

-- Which of the two templates wraps a bound.
pub data Bound : Type 0 where
  inclusive_bound exclusive_bound : Bound

abbrev pub prepend {ℓ} : {T : Type ℓ} → T → Option (List T) → Option (List T)
prepend x none = none
prepend x (some xs) = some (x ∷ xs)

module _ {ℓ} {T : Type ℓ} (s : Steps T) where
  -- The values that a loop from `begin()` to `end()` visits; `none` is a loop longer than the fuel.
  unfoldable pub visit : ℕ → T → T → Option (List T)
  visit zero begin end = none
  visit (suc fuel) begin end =
      let rest = prepend begin (visit fuel (s.next begin) end) in
      if s.equal begin end then some [] else rest

  -- `for (const auto self : sequence)`, which `to` copies into a container.
  unfoldable pub to : ℕ → Sequence T → Option (List T)
  unfolding visit
  to fuel q = visit fuel q.first q.last

  -- `Sequence::increment`
  abbrev pub increment : T → T
  increment value = s.next value

  -- The call operators of `Inclusive` and of `Exclusive`: both increment the bound.
  abbrev pub inclusive : T → T
  inclusive value = increment value

  abbrev pub exclusive : T → T
  exclusive value = increment value

  -- `rangeOf(T, T)`
  abbrev pub range_of : T → T → Sequence T
  range_of begin end = record { first = begin; last = end }

  -- `rangeOf(Begin<T>, End<T>)`
  abbrev pub range_of_bounds : Bound → Bound → T → T → Sequence T
  range_of_bounds b e begin end = record {
    first = elim b [ exclusive_bound ↦ exclusive begin | inclusive_bound ↦ begin ];
    last = elim e [ exclusive_bound ↦ end | inclusive_bound ↦ inclusive end ];
  }

  -- `rangeOf(Begin<T>, T)` calls the bound, whichever template it is.
  abbrev pub range_of_begin : Bound → T → T → Sequence T
  range_of_begin b begin end = record {
    first = elim b [ exclusive_bound ↦ exclusive begin | inclusive_bound ↦ inclusive begin ];
    last = end;
  }

  -- `rangeOf(T, End<T>)` likewise.
  abbrev pub range_of_end : Bound → T → T → Sequence T
  range_of_end e begin end = record {
    first = begin;
    last = elim e [ exclusive_bound ↦ exclusive end | inclusive_bound ↦ inclusive end ];
  }

abbrev indexed_from {ℓ} : {A : Type ℓ} → ℕ → List A → List (ℕ × A)
indexed_from n [] = []
indexed_from n (x ∷ xs) = (n, x) ∷ indexed_from (suc n) xs

-- `rangeIndexed`, by the adaptor of the range library: each element with its index, from 0 on.
unfoldable pub range_indexed {ℓ} : {A : Type ℓ} → List A → List (ℕ × A)
range_indexed input = indexed_from 0 input
