-- ===== src/Snmp/Client/Sound.antt =====
-- The table of the SNMP client, whose walks stay in it after their end.
use cpp_grcp_testground.Prelude.{
  ℕ, suc, ◌<◌, ◌≡◌, ◌∙◌, refl, Bool, true, false, Option, none, some, [], ◌∷◌, Str, if◌then◌else◌,
  arith, Bool-cases, inl, inr,
}
use cpp_grcp_testground.Prelude.Map.{
  Map, lookup, insert, erase, IsSorted, insert-IsSorted, erase-IsSorted,
}
use cpp_grcp_testground.Prelude.Strings.{str_order, str_less_irrefl, str_less_trans}
use cpp_grcp_testground.Util.Promises.{
  Promises, Future, waiting, broken, waits, set_state, make_promise, displace,
}
use cpp_grcp_testground.Util.Promises.Tracking.{
  holds, Distinct, Below, erase-Below, erase-Distinct, insert-Below, holds-erase, holds-lookup,
  holds-Below, holds-insert_new, holds-insert_old, lookup-After, IsSorted-After,
}
use cpp_grcp_testground.Util.Promises.Keeping.{lookup-Below, inserted_fresh, inserted-Distinct}
use cpp_grcp_testground.Util.Promises.Renewing.{
  AreGood, lookup-AreGood, insert-AreGood, erase-AreGood, holds-renew, renew-Distinct,
}
use cpp_grcp_testground.Snmp.Values.{Oid}
use cpp_grcp_testground.Snmp.Client.{SnmpClient, SnmpRequest, SnmpResult, promise_of, enter}

abbrev has_oid : Option Oid → Bool
has_oid none = false
has_oid (some oid) = true

-- A request that is no walk waits for its answer, and a walk knows where it began.
abbrev pub is_coherent : Promises SnmpResult → SnmpRequest → Bool
is_coherent ps r = if r.is_walk then has_oid r.walk_oid else waits (ps.state r.promise)

-- The keys are in order, every promise of the table is one that was made and no two requests share
-- it, every future that waits is that of a request of the table, and the requests are coherent.
pub record IsSound (c : SnmpClient) : Type 0 where
  pub sorted : IsSorted c.pending_requests
  pub fresh : Below promise_of c.futures.next c.pending_requests
  pub distinct : Distinct promise_of c.pending_requests
  pub owned :
      (i : ℕ)
      → i < c.futures.next
      → waits (c.futures.state i) ≡ true
      → holds promise_of i c.pending_requests ≡ true
  pub coherent : AreGood (is_coherent c.futures) c.pending_requests

set_state-others :
    (j : ℕ) (f : Future SnmpResult) (ps : Promises SnmpResult) (m : Map Str SnmpRequest)
    → holds promise_of j m ≡ false
    → AreGood (is_coherent ps) m
    → AreGood (is_coherent (set_state j f ps)) m
set_state-others j f ps [] h a = tt
set_state-others j f ps ((k, r) ∷ m) h a =
    (ground arith, set_state-others j f ps m (ground arith) a.1)

-- A request takes the place of another one, whose future is set.
replaced-AreGood :
    (k : Str) (v old : SnmpRequest) (f : Future SnmpResult) (ps : Promises SnmpResult)
    (m : Map Str SnmpRequest)
    → IsSorted m
    → Distinct promise_of m
    → lookup k m ≡ some old
    → is_coherent (set_state old.promise f ps) v ≡ true
    → AreGood (is_coherent ps) m
    → AreGood (is_coherent (set_state old.promise f ps)) (insert k v m)
unfolding insert lookup
replaced-AreGood k v old f ps [] s d e g a = cc
replaced-AreGood k v old f ps ((j, r) ∷ m) s d e g a =
    let later = IsSorted-After promise_of j m s in
    ground (
      arith,
      replaced-AreGood k v old f ps m later d.1,
      set_state-others old.promise f ps m,
      holds-lookup promise_of k old m,
      lookup-After promise_of j k m s,
      str_less_irrefl k,
      str_less_trans k j k,
    )

-- A request that is answered is taken out, whatever its future is set to.
pub answered-IsSound :
    (c : SnmpClient) (k : Str) (r : SnmpRequest) (f : Future SnmpResult)
    → IsSound c
    → lookup k c.pending_requests ≡ some r
    → waits f ≡ false
    → IsSound (record {
      pending_requests = erase k c.pending_requests;
      futures = set_state r.promise f c.futures;
    })
answered-IsSound c k r f h e w =
    let m = c.pending_requests in
    let gone = λ (i : ℕ). holds-erase promise_of i k r m h.sorted h.distinct e in
    record {
      sorted = erase-IsSorted k m h.sorted;
      fresh = erase-Below promise_of c.futures.next k m h.fresh;
      distinct = erase-Distinct promise_of k m h.distinct;
      owned = λ i lt live. ground (arith, gone i, h.owned i lt);
      coherent =
          set_state-others r.promise f c.futures (erase k m) (gone r.promise ∙ ground arith)
            (erase-AreGood (is_coherent c.futures) k m h.coherent);
    }

-- A walk that goes on takes the place of what it was.
pub renewed-IsSound :
    (c : SnmpClient) (k : Str) (r r' : SnmpRequest)
    → IsSound c
    → lookup k c.pending_requests ≡ some r
    → r'.promise ≡ r.promise
    → r'.is_walk ≡ r.is_walk
    → r'.walk_oid ≡ r.walk_oid
    → IsSound (record c { pending_requests = insert k r' c.pending_requests })
renewed-IsSound c k r r' h e p w o =
    let m = c.pending_requests in
    let was : r.promise < c.futures.next = lookup-Below promise_of c.futures.next k r m h.fresh e in
    let good = lookup-AreGood (is_coherent c.futures) k r m h.coherent e in
    record {
      sorted = insert-IsSorted k r' m h.sorted;
      fresh = insert-Below promise_of c.futures.next k r' m (omega arith) h.fresh;
      distinct = renew-Distinct promise_of k r' r m h.sorted h.distinct e p;
      owned = λ i lt live.
          holds-renew promise_of i k r' r m h.sorted h.distinct e p ∙ h.owned i lt live;
      coherent = insert-AreGood (is_coherent c.futures) k r' m (rw (w, o, p) good) h.coherent;
    }

walk-AreGood :
    (k : Str) (r : SnmpRequest) (f : Future SnmpResult) (ps : Promises SnmpResult)
    (m : Map Str SnmpRequest)
    → Distinct promise_of m
    → lookup k m ≡ some r
    → r.is_walk ≡ true
    → AreGood (is_coherent ps) m
    → AreGood (is_coherent (set_state r.promise f ps)) m
unfolding lookup
walk-AreGood k r f ps [] d e w a = cc
walk-AreGood k r f ps ((j, v) ∷ m) d e w a = ground (
  arith,
  walk-AreGood k r f ps m d.1,
  set_state-others r.promise f ps m,
  holds-lookup promise_of k r m,
)

-- The future of a walk is set.
pub ended-IsSound :
    (c : SnmpClient) (k : Str) (r : SnmpRequest) (f : Future SnmpResult)
    → IsSound c
    → lookup k c.pending_requests ≡ some r
    → r.is_walk ≡ true
    → waits f ≡ false
    → IsSound (record c { futures = set_state r.promise f c.futures })
ended-IsSound c k r f h e w over = record {
  sorted = h.sorted;
  fresh = h.fresh;
  distinct = h.distinct;
  owned = λ i lt live. ground (arith, h.owned i lt);
  coherent = walk-AreGood k r f c.futures c.pending_requests h.distinct e w h.coherent;
}

-- A new promise leaves the requests coherent.
made-AreGood :
    (c : SnmpClient) → IsSound c → AreGood (is_coherent (make_promise c.futures)) c.pending_requests
made-AreGood c h =
    set_state-others c.futures.next waiting c.futures c.pending_requests
      (holds-Below promise_of c.futures.next c.pending_requests h.fresh) h.coherent

-- A table with a new request is sound for futures that it owns and is coherent with.
inserted-IsSound :
    (c : SnmpClient) (r : SnmpRequest) (ps : Promises SnmpResult)
    → IsSound c
    → r.promise ≡ c.futures.next
    → ps.next ≡ suc c.futures.next
    → ((i : ℕ)
        → i < suc c.futures.next
        → waits (ps.state i) ≡ true
        → holds promise_of i (insert r.uuid r c.pending_requests) ≡ true)
    → AreGood (is_coherent ps) (insert r.uuid r c.pending_requests)
    → IsSound (record { pending_requests = insert r.uuid r c.pending_requests; futures = ps })
inserted-IsSound c r ps h p n owned coherent =
    let m = c.pending_requests in
    record {
      sorted = insert-IsSorted r.uuid r m h.sorted;
      fresh = rw n (inserted_fresh promise_of m c.futures.next r.uuid r p h.fresh);
      distinct = inserted-Distinct promise_of m c.futures.next r.uuid r p h.fresh h.distinct;
      owned = λ i lt live. owned i (rw (← n) lt) live;
      coherent = coherent;
    }

entered-IsSound :
    (c : SnmpClient) (r : SnmpRequest) (found : Option SnmpRequest)
    → IsSound c
    → r.promise ≡ c.futures.next
    → is_coherent (make_promise c.futures) r ≡ true
    → lookup r.uuid c.pending_requests ≡ found
    → IsSound (record {
      pending_requests = insert r.uuid r c.pending_requests;
      futures = displace promise_of found (make_promise c.futures);
    })
entered-IsSound c r none h p g e =
    let m = c.pending_requests in
    let made = make_promise c.futures in
    inserted-IsSound c r made h p refl
      (λ i lt live. ground (arith, h.owned i, holds-insert_new promise_of i r.uuid r m e))
      (insert-AreGood (is_coherent made) r.uuid r m g (made-AreGood c h))
entered-IsSound c r (some old) h p g e =
    let m = c.pending_requests in
    let made = make_promise c.futures in
    let was : old.promise < c.futures.next =
      lookup-Below promise_of c.futures.next r.uuid old m h.fresh e in
    let owner = λ (i : ℕ). holds-insert_old promise_of i r.uuid r old m h.sorted h.distinct e in
    elim (Bool-cases (waits (made.state old.promise))) [
      | inl live ↦ rw live (
          inserted-IsSound c r (set_state old.promise broken made) h p refl
            (λ i lt live_yet. ground (arith, h.owned i, owner i))
            (replaced-AreGood r.uuid r old broken made m h.sorted h.distinct e (ground arith)
              (made-AreGood c h)))
      | inr over ↦ rw over (
          inserted-IsSound c r made h p refl (λ i lt live_yet. ground (arith, h.owned i, owner i))
            (insert-AreGood (is_coherent made) r.uuid r m g (made-AreGood c h)))
    ]

-- A new request is entered, and the one whose place it takes, if there is one, is destroyed.
pub enter-IsSound :
    (c : SnmpClient) (r : SnmpRequest)
    → IsSound c
    → r.promise ≡ c.futures.next
    → is_coherent (make_promise c.futures) r ≡ true
    → IsSound (enter r c)
enter-IsSound c r h p g = entered-IsSound c r (lookup r.uuid c.pending_requests) h p g refl
