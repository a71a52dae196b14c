-- ===== src/Prelude/Map.antt =====
-- `std::map`: an association list in the order of its keys. Two keys are the same when neither is
-- less than the other.
use mathlib.Core.Path.{◌≡◌, refl}
use mathlib.Core.Bool.{Bool, true, false, not, ◌&&◌}
use mathlib.Core.Option.{Option, none, some}
use mathlib.Core.List.{List, [], ◌∷◌}
use native.Mathlib.Omega.{arith}
use cpp_grcp_testground.Prelude.Tests.{if◌then◌else◌}

-- The strict weak order that a map's `operator<` on keys has to be.
pub record Order {ℓ} (K : Type ℓ) : Type ℓ where
  pub less : K → K → Bool
  pub less_irrefl : (a : K) → less a a ≡ false
  pub less_trans : (a b c : K) → less a b ≡ true → less b c ≡ true → less a c ≡ true
  pub same_trans :
      (a b c : K)
      → not (less a b) && not (less b a) ≡ true
      → not (less b c) && not (less c b) ≡ true
      → not (less a c) && not (less c a) ≡ true

abbrev pub Map {ℓ κ} : Type ℓ → Type κ → Type (ℓ ⊔ κ)
Map K V = List (K × V)

abbrev pub same {ℓ} : {K : Type ℓ} ⦃o : Order K⦄ → K → K → Bool
same ⦃o⦄ a b = not (o.less a b) && not (o.less b a)

pub same_refl {ℓ} : {K : Type ℓ} ⦃o : Order K⦄ (a : K) → same a a ≡ true
same_refl ⦃o⦄ a = ground (arith, o.less_irrefl a)

module _ {ℓ κ} {K : Type ℓ} {V : Type κ} ⦃o : Order K⦄ where
  unfoldable pub lookup : K → Map K V → Option V
  lookup k [] = none
  lookup k ((j, v) ∷ m) = if same k j then some v else lookup k m

  -- `m.count(k) != 0`
  unfoldable pub has : K → Map K V → Bool
  has k m = elim (lookup k m) [ none ↦ false | some _ ↦ true ]

  -- `m[k] = v`; a key that is there stays as it is.
  unfoldable pub insert : K → V → Map K V → Map K V
  insert k v [] = (k, v) ∷ []
  insert k v ((j, w) ∷ m) =
      let rest = insert k v m in
      if o.less k j then (k, v) ∷ (j, w) ∷ m else if o.less j k then (j, w) ∷ rest else (j, v) ∷ m

  unfoldable pub erase : K → Map K V → Map K V
  erase k [] = []
  erase k ((j, w) ∷ m) = let rest = erase k m in if same k j then rest else (j, w) ∷ rest

  -- The keys rise along the list.
  abbrev pub After : K → Map K V → Type 0
  After k [] = Unit {0}
  After k ((j, _) ∷ m) = (o.less k j ≡ true) × After j m

  abbrev pub IsSorted : Map K V → Type 0
  IsSorted [] = Unit {0}
  IsSorted ((k, _) ∷ m) = After k m

module _ {ℓ κ} {K : Type ℓ} {V : Type κ} ⦃o : Order K⦄ where
  pub lookup-insert :
      (j k : K) (v : V) (m : Map K V)
      → lookup j (insert k v m) ≡ (if same j k then some v else lookup j m)
  unfolding lookup insert
  lookup-insert j k v [] = refl
  lookup-insert j k v ((i, w) ∷ m) =
      ground
        (arith, o.same_trans j k i, o.same_trans j i k, o.same_trans k j i, lookup-insert j k v m)

  pub lookup-erase :
      (j k : K) (m : Map K V) → lookup j (erase k m) ≡ (if same j k then none else lookup j m)
  unfolding lookup erase
  lookup-erase j k [] = ground arith
  lookup-erase j k ((i, w) ∷ m) =
      ground (arith, o.same_trans j k i, o.same_trans j i k, o.same_trans k j i, lookup-erase j k m)

  pub lookup-insert_self : (k : K) (v : V) (m : Map K V) → lookup k (insert k v m) ≡ some v
  lookup-insert_self k v m = rw (lookup-insert k k v m, same_refl k)

  pub lookup-erase_self : (k : K) (m : Map K V) → lookup k (erase k m) ≡ none
  lookup-erase_self k m = rw (lookup-erase k k m, same_refl k)

  After-trans : (i k : K) (m : Map K V) → o.less i k ≡ true → After k m → After i m
  After-trans i k [] h s = tt
  After-trans i k ((j, w) ∷ m) h s = (o.less_trans i k j h s.0, s.1)

  insert-After :
      (i k : K) (v : V) (m : Map K V) → o.less i k ≡ true → After i m → After i (insert k v m)
  unfolding insert
  insert-After i k v [] h s = (h, tt)
  insert-After i k v ((j, w) ∷ m) h s = ground (arith, insert-After j k v m)

  erase-After : (i k : K) (m : Map K V) → After i m → After i (erase k m)
  unfolding erase
  erase-After i k [] s = tt
  erase-After i k ((j, w) ∷ m) s =
      ground (arith, erase-After j k m s.1, After-trans i j (erase k m) s.0)

  pub insert-IsSorted : (k : K) (v : V) (m : Map K V) → IsSorted m → IsSorted (insert k v m)
  unfolding insert
  insert-IsSorted k v [] s = tt
  insert-IsSorted k v ((j, w) ∷ m) s = ground (arith, insert-After j k v m)

  pub erase-IsSorted : (k : K) (m : Map K V) → IsSorted m → IsSorted (erase k m)
  unfolding erase
  erase-IsSorted k [] s = tt
  erase-IsSorted k ((j, w) ∷ m) s =
      let tail = erase-After j k m s in ground (arith, tail, After→IsSorted j (erase k m))
    where
      After→IsSorted : (i : K) (l : Map K V) → After i l → IsSorted l
      After→IsSorted i [] a = tt
      After→IsSorted i (e ∷ l) a = a.1
