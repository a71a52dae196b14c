-- ===== src/Snmp/Client/History.antt =====
-- Any sequence of requests and callbacks of the SNMP client.
use cpp_grcp_testground.Prelude.{
  ℕ, ◌≡◌, ◌∙◌, refl, ap, Bool, true, false, ◌&&◌, Option, none, some, List, [], ◌∷◌, Str, ok, err,
  arith, Bool-cases, Option-cases, inl, inr,
}
use cpp_grcp_testground.Prelude.ErrorType.{timed_out}
use cpp_grcp_testground.Prelude.Map.{lookup, erase}
use cpp_grcp_testground.Prelude.Strings.{str_order}
use cpp_grcp_testground.Util.Promises.{Promises, waits, ready, set_value}
use cpp_grcp_testground.Util.Promises.Renewing.{lookup-AreGood}
use cpp_grcp_testground.Snmp.Values.{Oid, Vb, Library}
use cpp_grcp_testground.Snmp.Target.{Target}
use cpp_grcp_testground.Snmp.Client.{
  SnmpClient, SnmpRequest, SnmpResult, Reason, async_response, timeout, other_reason, Walked,
  finished, failed, unfinished, get_async, get_bulk_async, walk_async, create_request, handle_get,
  Further, nothing_further, unless_set-waits, get_result, conclude, collected, handle_walk,
  callback,
}
use cpp_grcp_testground.Snmp.Client.Sound.{
  IsSound, is_coherent, answered-IsSound, renewed-IsSound, ended-IsSound, enter-IsSound,
}

-- A request of one of the three kinds, under the identifier that is generated for it, or a callback
-- of the library.
pub data Event : Type 0 where
  got : Str → List Oid → Target → Event
  got_bulk : Str → List Oid → Target → ℕ → ℕ → Event
  walked : Str → Oid → Target → Event
  called_back : Reason → List Vb → Str → Event

-- The client that a callback leaves, without the further request to send.
abbrev left : Option (SnmpClient × Further) → Option SnmpClient
left none = none
left (some (c, again)) = some c

abbrev and_then : (SnmpClient → Option SnmpClient) → Option SnmpClient → Option SnmpClient
and_then later none = none
and_then later (some c) = later c

module _ (decimal : ℕ → Str) (lib : Library) (starts_with : Oid → Oid → Bool) where
  abbrev pub happen : Event → SnmpClient → Option SnmpClient
  happen (got uuid oids target) c = some (get_async decimal lib uuid oids target c).0
  happen (got_bulk uuid oids target non_repeaters max_reps) c =
      some (get_bulk_async decimal lib uuid oids target non_repeaters max_reps c).0
  happen (walked uuid oid target) c = some (walk_async decimal lib uuid oid target c).0
  happen (called_back reason vbs uuid) c = left (callback lib starts_with reason vbs uuid c)

  abbrev pub history : List Event → SnmpClient → Option SnmpClient
  history [] c = some c
  history (e ∷ es) c = and_then (history es) (happen e c)

-- Whether a request is there and its promise has not been set.
abbrev awaits : Promises SnmpResult → Option SnmpRequest → Bool
awaits ps none = false
awaits ps (some r) = waits (ps.state r.promise)

-- A callback stands for a request that the table has and whose promise has not been set: the library
-- calls back once for each request that it was sent.
abbrev pub is_expected : Event → SnmpClient → Bool
is_expected (got uuid oids target) c = true
is_expected (got_bulk uuid oids target non_repeaters max_reps) c = true
is_expected (walked uuid oid target) c = true
is_expected (called_back reason vbs uuid) c = awaits c.futures (lookup uuid c.pending_requests)

module _ (decimal : ℕ → Str) (lib : Library) (starts_with : Oid → Oid → Bool) where
  abbrev pub are_expected : List Event → SnmpClient → Bool
  are_expected [] c = true
  are_expected (e ∷ es) c =
      is_expected e c
      && elim (happen decimal lib starts_with e c) [ none ↦ true | some c' ↦ are_expected es c' ]

abbrev StaysSound : Option (SnmpClient × Further) → Type 0
StaysSound after = (c : SnmpClient) × (again : Further) × (after ≡ some (c, again)) × IsSound c

set_value-IsSound :
    (c : SnmpClient) (k : Str) (r : SnmpRequest) (result : SnmpResult)
    → IsSound c
    → lookup k c.pending_requests ≡ some r
    → r.is_walk ≡ true
    → IsSound (record c { futures = set_value r.promise result c.futures })
set_value-IsSound c k r result h e w = elim (Bool-cases (waits (c.futures.state r.promise))) [
  | inl live ↦ rw live (ended-IsSound c k r (ready result) h e w refl)
  | inr over ↦ rw over h
]

conclude-IsSound :
    (uuid : Str) (r : SnmpRequest) (vbs : List Vb) (walk : Walked) (c : SnmpClient)
    → IsSound c
    → lookup uuid c.pending_requests ≡ some r
    → r.is_walk ≡ true
    → waits (c.futures.state r.promise) ≡ true
    → StaysSound (conclude uuid r vbs walk c)
conclude-IsSound uuid r vbs (finished variables) c h e w live = (
  _,
  _,
  unless_set-waits r.promise c _ live,
  renewed-IsSound
      (record c { futures = set_value r.promise (ok (collected variables r)) c.futures }) uuid r
      (record r { response = collected variables r })
      (set_value-IsSound c uuid r (ok (collected variables r)) h e w) e refl refl refl,
)
conclude-IsSound uuid r vbs (failed variables) c h e w live = (
  _,
  _,
  unless_set-waits r.promise c _ live,
  renewed-IsSound (record c { futures = set_value r.promise (err timed_out) c.futures }) uuid r
      (record r { response = collected variables r })
      (set_value-IsSound c uuid r (err timed_out) h e w) e refl refl refl,
)
conclude-IsSound uuid r vbs (unfinished variables) c h e w live = (
  _,
  _,
  refl,
  renewed-IsSound c uuid r (record r { response = collected variables r }) h e refl refl refl,
)

handle_walk-IsSound :
    (lib : Library) (starts_with : Oid → Oid → Bool) (oid : Oid) (reason : Reason) (vbs : List Vb)
    (uuid : Str) (r : SnmpRequest) (c : SnmpClient)
    → IsSound c
    → lookup uuid c.pending_requests ≡ some r
    → r.is_walk ≡ true
    → waits (c.futures.state r.promise) ≡ true
    → StaysSound (handle_walk lib starts_with oid reason vbs uuid r c)
unfolding handle_walk
handle_walk-IsSound lib starts_with oid timeout vbs uuid r c h e w live =
    (_, _, unless_set-waits r.promise c _ live, set_value-IsSound c uuid r (err timed_out) h e w)
handle_walk-IsSound lib starts_with oid async_response vbs uuid r c h e w live =
    conclude-IsSound uuid r vbs _ c h e w live
handle_walk-IsSound lib starts_with oid other_reason vbs uuid r c h e w live =
    conclude-IsSound uuid r vbs _ c h e w live

handle_get-IsSound :
    (lib : Library) (reason : Reason) (vbs : List Vb) (uuid : Str) (r : SnmpRequest)
    (c : SnmpClient)
    → IsSound c
    → lookup uuid c.pending_requests ≡ some r
    → waits (c.futures.state r.promise) ≡ true
    → StaysSound (handle_get lib reason vbs uuid r c)
unfolding handle_get
handle_get-IsSound lib reason vbs uuid r c h e live = (
  record {
    pending_requests = erase uuid c.pending_requests;
    futures = set_value r.promise (get_result lib reason vbs r) c.futures;
  },
  nothing_further,
  rw live refl,
  rw live (answered-IsSound c uuid r (ready (get_result lib reason vbs r)) h e refl),
)

module _ (lib : Library) (starts_with : Oid → Oid → Bool) where
  -- A callback for a request of a sound client whose promise has not been set has an outcome.
  expected-IsSound :
      (reason : Reason) (vbs : List Vb) (uuid : Str) (r : SnmpRequest) (c : SnmpClient)
      → IsSound c
      → lookup uuid c.pending_requests ≡ some r
      → waits (c.futures.state r.promise) ≡ true
      → StaysSound (callback lib starts_with reason vbs uuid c)
  unfolding callback
  expected-IsSound reason vbs uuid r c h e live =
      let good = lookup-AreGood (is_coherent c.futures) uuid r c.pending_requests h.coherent e in
      elim (Bool-cases r.is_walk) [
        | inl walk ↦ elim (Option-cases r.walk_oid) [
          | inl nowhere ↦ absurd (ground arith)
          | inr (oid, subtree) ↦
              let (c', again, ran, sound) =
                handle_walk-IsSound lib starts_with oid reason vbs uuid r c h e walk live in
              (c', again, rw (e, walk, subtree) ran, sound)
        ]
        | inr simple ↦
            let (c', again, ran, sound) = handle_get-IsSound lib reason vbs uuid r c h e live in
            (c', again, rw (e, simple) ran, sound)
      ]

awaited-lookup :
    (uuid : Str) (c : SnmpClient)
    → awaits c.futures (lookup uuid c.pending_requests) ≡ true
    → (r : SnmpRequest) × (lookup uuid c.pending_requests ≡ some r)
      × (waits (c.futures.state r.promise) ≡ true)
awaited-lookup uuid c h = elim (Option-cases (lookup uuid c.pending_requests)) [
  | inl absent ↦ absurd (ground arith)
  | inr (r, found) ↦ (r, found, ground arith)
]

module _ (decimal : ℕ → Str) (lib : Library) (starts_with : Oid → Oid → Bool) where
  abbrev Survives : Option SnmpClient → Type 0
  Survives after = (c : SnmpClient) × (after ≡ some c) × IsSound c

  happen-Survives :
      (e : Event) (c : SnmpClient)
      → IsSound c
      → is_expected e c ≡ true
      → Survives (happen decimal lib starts_with e c)
  unfolding get_async get_bulk_async walk_async create_request
  happen-Survives (got uuid oids target) c h x = (_, refl, enter-IsSound c _ h refl (ground arith))
  happen-Survives (got_bulk uuid oids target non_repeaters max_reps) c h x =
      (_, refl, enter-IsSound c _ h refl (ground arith))
  happen-Survives (walked uuid oid target) c h x =
      (_, refl, enter-IsSound c _ h refl (ground arith))
  happen-Survives (called_back reason vbs uuid) c h x =
      let (r, found, live) = awaited-lookup uuid c x in
      let (c', again, e, sound) =
        expected-IsSound lib starts_with reason vbs uuid r c h found live in
      (c', ap left e, sound)

  -- Whatever requests a sound client sends, under whatever identifiers, and whatever the library calls
  -- back for requests that are in the table and whose promise has not been set, no callback uses a
  -- request that is gone or sets a promise twice, which would throw, and the client is sound
  -- afterwards: every future that waits is that of a request of the table, no two requests share a
  -- future, every request that is no walk waits for its answer, and every walk knows where it began.
  -- A request is sent and its future taken in one step, without a callback in between.
  pub history-IsSound :
      (es : List Event) (c : SnmpClient)
      → IsSound c
      → are_expected decimal lib starts_with es c ≡ true
      → (c' : SnmpClient) × (history decimal lib starts_with es c ≡ some c') × IsSound c'
  history-IsSound [] c h x = (c, refl, h)
  history-IsSound (e ∷ es) c h x =
      let (next, done, sound) = happen-Survives e c h (ground arith) in
      let (last, all, still) = history-IsSound es next sound (ground arith) in
      (last, ap (and_then (history decimal lib starts_with es)) done ∙ all, still)
