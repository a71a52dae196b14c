-- ===== src/Util/Promises/Keeping.antt =====
-- The operations on a table of requests keep it in agreement with the futures.
use cpp_grcp_testground.Prelude.{
  ℕ, suc, ◌<◌, ◌≡◌, refl, ◌∙◌, true, false, Option, none, some, [], ◌∷◌, arith, ◌==◌, if◌then◌else◌,
}
use cpp_grcp_testground.Prelude.Map.{
  Order, Map, lookup, insert, erase, insert-IsSorted, erase-IsSorted,
}
use cpp_grcp_testground.Util.Promises.{
  Future, waiting, broken, ready, Promises, set_state, make_promise, waits, set_value, drop_promise,
  displace, owner_is, assign,
}
use cpp_grcp_testground.Util.Promises.Tracking.{
  erase_absent, Distinct, Below, Tracks, holds-lookup, holds-erase, holds-insert_new,
  holds-insert_old, holds-Below, Below-suc, erase-Below, insert-Below, erase-Distinct,
  insert-Distinct,
}

module _ {ℓ κ} {K : Type ℓ} {V : Type κ} ⦃o : Order K⦄ (promise : V → ℕ) where
  pub lookup-Below :
      (n : ℕ) (k : K) (v : V) (m : Map K V)
      → Below promise n m
      → lookup k m ≡ some v
      → promise v < n
  unfolding lookup
  lookup-Below n k v [] b e = cc
  lookup-Below n k v ((j, w) ∷ m) b e = ground (arith, lookup-Below n k v m b.1)

  pub inserted_fresh :
      (m : Map K V) (n : ℕ) (k : K) (v : V)
      → promise v ≡ n
      → Below promise n m
      → Below promise (suc n) (insert k v m)
  inserted_fresh m n k v e b =
      insert-Below promise (suc n) k v m (omega arith) (Below-suc promise n m b)

  pub inserted-Distinct :
      (m : Map K V) (n : ℕ) (k : K) (v : V)
      → promise v ≡ n
      → Below promise n m
      → Distinct promise m
      → Distinct promise (insert k v m)
  inserted-Distinct m n k v e b = insert-Distinct promise k v m (rw e (holds-Below promise n m b))

module _ {ℓ κ μ} {K : Type ℓ} {V : Type κ} {R : Type μ} ⦃o : Order K⦄ (promise : V → ℕ) where
  -- A request that is in the table waits for its answer.
  pub lookup-waits :
      (m : Map K V) (ps : Promises R) (k : K) (v : V)
      → Tracks promise m ps
      → lookup k m ≡ some v
      → waits (ps.state (promise v)) ≡ true
  lookup-waits m ps k v t e =
      t.tracked (promise v) (lookup-Below promise ps.next k v m t.fresh e)
      ∙ holds-lookup promise k v m e

  -- To store an answer, or an exception, in a request's future and to take the request out.
  pub answer-Tracks :
      (m : Map K V) (ps : Promises R) (k : K) (v : V) (f : Future R)
      → Tracks promise m ps
      → lookup k m ≡ some v
      → waits f ≡ false
      → Tracks promise (erase k m) (set_state (promise v) f ps)
  answer-Tracks m ps k v f t e h = record {
    sorted = erase-IsSorted k m t.sorted;
    fresh = erase-Below promise ps.next k m t.fresh;
    distinct = erase-Distinct promise k m t.distinct;
    tracked =
        λ i lt. ground (arith, t.tracked i lt, holds-erase promise i k v m t.sorted t.distinct e);
  }

  -- So `set_value` on a request of the table stores the value, and the table may drop the request.
  pub set_value-Tracks :
      (m : Map K V) (ps : Promises R) (k : K) (v : V) (r : R)
      → Tracks promise m ps
      → lookup k m ≡ some v
      → Tracks promise (erase k m) (set_value (promise v) r ps)
  set_value-Tracks m ps k v r t e =
      rw (lookup-waits m ps k v t e) (answer-Tracks m ps k v (ready r) t e refl)

  pub drop_promise-Tracks :
      (m : Map K V) (ps : Promises R) (k : K) (v : V)
      → Tracks promise m ps
      → lookup k m ≡ some v
      → Tracks promise (erase k m) (drop_promise (promise v) ps)
  drop_promise-Tracks m ps k v t e =
      rw (lookup-waits m ps k v t e) (answer-Tracks m ps k v broken t e refl)

  assigned :
      (m : Map K V) (ps : Promises R) (k : K) (v : V) (found : Option V)
      → Tracks promise m ps
      → promise v ≡ ps.next
      → lookup k m ≡ found
      → Tracks promise (insert k v m) (displace promise found (make_promise ps))
  assigned m ps k v none t e absent = record {
    sorted = insert-IsSorted k v m t.sorted;
    fresh = inserted_fresh promise m ps.next k v e t.fresh;
    distinct = inserted-Distinct promise m ps.next k v e t.fresh t.distinct;
    tracked = λ i lt. ground (arith, t.tracked i, holds-insert_new promise i k v m absent);
  }
  assigned m ps k v (some old) t e present =
      let was : promise old < ps.next = lookup-Below promise ps.next k old m t.fresh present in
      let waited = lookup-waits m ps k old t present in
      let live : waits ((make_promise ps).state (promise old)) ≡ true = ground arith in
      rw live (record {
        sorted = insert-IsSorted k v m t.sorted;
        fresh = inserted_fresh promise m ps.next k v e t.fresh;
        distinct = inserted-Distinct promise m ps.next k v e t.fresh t.distinct;
        tracked = λ i lt.
            ground (
              arith,
              t.tracked i,
              holds-insert_old promise i k v old m t.sorted t.distinct present,
            );
      })

  -- To put in a request with a new promise, in the place of the one that was there.
  pub assign-Tracks :
      (m : Map K V) (ps : Promises R) (k : K) (v : V)
      → Tracks promise m ps
      → promise v ≡ ps.next
      → let (m', ps') = assign promise k v m (make_promise ps) in Tracks promise m' ps'
  assign-Tracks m ps k v t e = assigned m ps k v (lookup k m) t e refl

  -- What every future holds after that: the new one waits, and the displaced one is broken.
  displaced :
      (m : Map K V) (ps : Promises R) (k : K) (found : Option V) (j : ℕ)
      → Tracks promise m ps
      → lookup k m ≡ found
      → (displace promise found (make_promise ps)).state j ≡ (
          if j == ps.next then waiting else if owner_is promise found j then broken else ps.state j)
  displaced m ps k none j t e = refl
  displaced m ps k (some old) j t e =
      let was : promise old < ps.next = lookup-Below promise ps.next k old m t.fresh e in
      ground (arith, lookup-waits m ps k old t e)

  pub assign-state :
      (m : Map K V) (ps : Promises R) (k : K) (j : ℕ)
      → Tracks promise m ps
      → (displace promise (lookup k m) (make_promise ps)).state j ≡ (
          if j == ps.next
          then waiting
          else if owner_is promise (lookup k m) j
          then broken
          else ps.state j)
  assign-state m ps k j t = displaced m ps k (lookup k m) j t refl

  released :
      (m : Map K V) (ps : Promises R) (k : K) (found : Option V)
      → Tracks promise m ps
      → lookup k m ≡ found
      → Tracks promise (erase k m) (displace promise found ps)
  released m ps k none t e = rw (erase_absent promise k m e) t
  released m ps k (some old) t e = drop_promise-Tracks m ps k old t e

  -- To destroy a request, if there is one, with its promise.
  pub release-Tracks :
      (m : Map K V) (ps : Promises R) (k : K)
      → Tracks promise m ps
      → Tracks promise (erase k m) (displace promise (lookup k m) ps)
  release-Tracks m ps k t = released m ps k (lookup k m) t refl
