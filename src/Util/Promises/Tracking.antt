-- ===== src/Util/Promises/Tracking.antt =====
-- A table of requests that each own a promise: no future is left waiting that no request will
-- answer.
use cpp_grcp_testground.Prelude.{
  ℕ, suc, ◌<◌, ◌≡◌, ◌≢◌, refl, Bool, true, false, not, ◌&&◌, ◌||◌, none, some, [], ◌∷◌, arith, ◌==◌,
  All,
}
use cpp_grcp_testground.Prelude.Map.{Order, Map, lookup, insert, erase, After, IsSorted}
use cpp_grcp_testground.Util.Promises.{Promises, waits}

module _ {ℓ κ} {K : Type ℓ} {V : Type κ} ⦃o : Order K⦄ (promise : V → ℕ) where
  -- Whether some request owns a promise.
  abbrev pub holds : ℕ → Map K V → Bool
  holds i [] = false
  holds i ((_, v) ∷ m) = i == promise v || holds i m

  -- No two requests own one promise.
  abbrev pub Distinct : Map K V → Type 0
  Distinct [] = Unit {0}
  Distinct ((_, v) ∷ m) = (holds (promise v) m ≡ false) × Distinct m

  pub lookup-After : (i k : K) (m : Map K V) → After i m → o.less i k ≡ false → lookup k m ≡ none
  unfolding lookup
  lookup-After i k [] a h = refl
  lookup-After i k ((j, w) ∷ m) a h =
      ground
        (arith, lookup-After j k m a.1, o.same_trans i k j, o.less_trans k i j, o.less_trans i j k)

  pub erase_absent : (k : K) (m : Map K V) → lookup k m ≡ none → erase k m ≡ m
  unfolding lookup erase
  erase_absent k [] h = refl
  erase_absent k ((j, w) ∷ m) h = ground (arith, erase_absent k m)

  pub IsSorted-After : (i : K) (m : Map K V) → After i m → IsSorted m
  IsSorted-After i [] a = tt
  IsSorted-After i (e ∷ m) a = a.1

  pub holds-lookup :
      (k : K) (v : V) (m : Map K V) → lookup k m ≡ some v → holds (promise v) m ≡ true
  unfolding lookup
  holds-lookup k v [] e = cc
  holds-lookup k v ((j, w) ∷ m) e = ground (arith, holds-lookup k v m)

  pub holds-erase :
      (j : ℕ) (k : K) (v : V) (m : Map K V)
      → IsSorted m
      → Distinct m
      → lookup k m ≡ some v
      → holds j (erase k m) ≡ holds j m && not (j == promise v)
  unfolding lookup erase
  holds-erase j k v [] s d e = cc
  holds-erase j k v ((i, w) ∷ m) s d e = ground (
    arith,
    holds-erase j k v m (IsSorted-After i m s) d.1,
    lookup-After i k m s,
    erase_absent k m,
    holds-lookup k v m,
  )

  pub holds-insert_new :
      (j : ℕ) (k : K) (v : V) (m : Map K V)
      → lookup k m ≡ none
      → holds j (insert k v m) ≡ (j == promise v || holds j m)
  unfolding lookup insert
  holds-insert_new j k v [] e = refl
  holds-insert_new j k v ((i, w) ∷ m) e = ground (arith, holds-insert_new j k v m)

  pub holds-insert_old :
      (j : ℕ) (k : K) (v old : V) (m : Map K V)
      → IsSorted m
      → Distinct m
      → lookup k m ≡ some old
      → holds j (insert k v m) ≡ (j == promise v || (holds j m && not (j == promise old)))
  unfolding lookup insert
  holds-insert_old j k v old [] s d e = cc
  holds-insert_old j k v old ((i, w) ∷ m) s d e = ground (
    arith,
    holds-insert_old j k v old m (IsSorted-After i m s) d.1,
    lookup-After i k m s,
    holds-lookup k old m,
    o.less_irrefl i,
    o.less_trans i k i,
  )

  -- An entry of the table, as far as its promise is concerned.
  abbrev pub Below : ℕ → Map K V → Type 0
  Below n = All (λ e. promise e.1 < n)

  pub holds-Below : (n : ℕ) (m : Map K V) → Below n m → holds n m ≡ false
  holds-Below n [] b = refl
  holds-Below n ((k, v) ∷ m) b = ground (arith, holds-Below n m b.1)

  pub Below-suc : (n : ℕ) (m : Map K V) → Below n m → Below (suc n) m
  Below-suc n [] b = tt
  Below-suc n (e ∷ m) b = (omega arith, Below-suc n m b.1)

  pub erase-Below : (n : ℕ) (k : K) (m : Map K V) → Below n m → Below n (erase k m)
  unfolding erase
  erase-Below n k [] b = tt
  erase-Below n k ((j, w) ∷ m) b = ground (arith, erase-Below n k m b.1)

  pub insert-Below :
      (n : ℕ) (k : K) (v : V) (m : Map K V) → promise v < n → Below n m → Below n (insert k v m)
  unfolding insert
  insert-Below n k v [] p b = (p, tt)
  insert-Below n k v ((j, w) ∷ m) p b = ground (arith, insert-Below n k v m p b.1)

  holds-erase-false :
      (i : ℕ) (k : K) (m : Map K V) → holds i m ≡ false → holds i (erase k m) ≡ false
  unfolding erase
  holds-erase-false i k [] h = refl
  holds-erase-false i k ((j, w) ∷ m) h = ground (arith, holds-erase-false i k m)

  pub erase-Distinct : (k : K) (m : Map K V) → Distinct m → Distinct (erase k m)
  unfolding erase
  erase-Distinct k [] d = tt
  erase-Distinct k ((j, w) ∷ m) d =
      ground (arith, erase-Distinct k m d.1, holds-erase-false (promise w) k m)

  holds-insert-false :
      (i : ℕ) (k : K) (v : V) (m : Map K V)
      → i ≢ promise v
      → holds i m ≡ false
      → holds i (insert k v m) ≡ false
  unfolding insert
  holds-insert-false i k v [] ne h = ground arith
  holds-insert-false i k v ((j, w) ∷ m) ne h = ground (arith, holds-insert-false i k v m ne)

  pub insert-Distinct :
      (k : K) (v : V) (m : Map K V)
      → holds (promise v) m ≡ false
      → Distinct m
      → Distinct (insert k v m)
  unfolding insert
  insert-Distinct k v [] h d = (refl, tt)
  insert-Distinct k v ((j, w) ∷ m) h d =
      ground (arith, insert-Distinct k v m, holds-insert-false (promise w) k v m)

  -- The table and the futures agree: the keys are in order, every promise of the table is one that
  -- was made and no two requests share it, and the futures that wait are those of the table.
  pub record Tracks {μ} {R : Type μ} (m : Map K V) (ps : Promises R) : Type μ where
    pub sorted : IsSorted m
    pub fresh : Below ps.next m
    pub distinct : Distinct m
    pub tracked : (i : ℕ) → i < ps.next → waits (ps.state i) ≡ holds i m
