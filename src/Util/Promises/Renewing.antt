-- ===== src/Util/Promises/Renewing.antt =====
-- A request that takes the place of an earlier one and keeps its promise, and properties of all the
-- requests of a table.
use cpp_grcp_testground.Prelude.{ℕ, ◌≡◌, ◌∙◌, Bool, true, some, [], ◌∷◌, All, arith}
use cpp_grcp_testground.Prelude.Map.{Order, Map, lookup, insert, erase, IsSorted}
use cpp_grcp_testground.Util.Promises.Tracking.{
  holds, Distinct, holds-lookup, holds-insert_old, lookup-After, IsSorted-After,
}

module _ {ℓ κ} {K : Type ℓ} {V : Type κ} ⦃o : Order K⦄ (promise : V → ℕ) where
  -- The promises that requests own are the same as before.
  pub holds-renew :
      (i : ℕ) (k : K) (v old : V) (m : Map K V)
      → IsSorted m
      → Distinct promise m
      → lookup k m ≡ some old
      → promise v ≡ promise old
      → holds promise i (insert k v m) ≡ holds promise i m
  holds-renew i k v old m s d e p =
      holds-insert_old promise i k v old m s d e ∙ ground (arith, holds-lookup promise k old m e)

  pub renew-Distinct :
      (k : K) (v old : V) (m : Map K V)
      → IsSorted m
      → Distinct promise m
      → lookup k m ≡ some old
      → promise v ≡ promise old
      → Distinct promise (insert k v m)
  unfolding insert lookup
  renew-Distinct k v old [] s d e p = cc
  renew-Distinct k v old ((j, w) ∷ m) s d e p =
      let later = IsSorted-After promise j m s in
      ground (
        arith,
        renew-Distinct k v old m later d.1,
        holds-renew (promise w) k v old m later d.1,
        lookup-After promise j k m s,
        o.less_irrefl k,
        o.less_trans k j k,
      )

module _ {ℓ κ} {K : Type ℓ} {V : Type κ} ⦃o : Order K⦄ (good : V → Bool) where
  abbrev pub AreGood : Map K V → Type 0
  AreGood = All (λ e. good e.1 ≡ true)

  pub lookup-AreGood :
      (k : K) (v : V) (m : Map K V) → AreGood m → lookup k m ≡ some v → good v ≡ true
  unfolding lookup
  lookup-AreGood k v [] a e = cc
  lookup-AreGood k v ((j, w) ∷ m) a e = ground (arith, lookup-AreGood k v m a.1)

  pub insert-AreGood :
      (k : K) (v : V) (m : Map K V) → good v ≡ true → AreGood m → AreGood (insert k v m)
  unfolding insert
  insert-AreGood k v [] p a = (p, tt)
  insert-AreGood k v ((j, w) ∷ m) p a = ground (arith, insert-AreGood k v m p a.1)

  pub erase-AreGood : (k : K) (m : Map K V) → AreGood m → AreGood (erase k m)
  unfolding erase
  erase-AreGood k [] a = tt
  erase-AreGood k ((j, w) ∷ m) a = ground (arith, erase-AreGood k m a.1)
