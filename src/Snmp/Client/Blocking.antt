-- ===== src/Snmp/Client/Blocking.antt =====
-- The calls of SnmpClient.cpp that wait for their answer.
use cpp_grcp_testground.Prelude.{
  ℕ, ◌≡◌, refl, ◌∙◌, Bool, none, some, List, [], ◌∷◌, Str, ok, err, arith,
}
use cpp_grcp_testground.Prelude.ErrorType.{timed_out, unknown}
use cpp_grcp_testground.Prelude.Map.{lookup, same_refl}
use cpp_grcp_testground.Prelude.Strings.{str_order}
use cpp_grcp_testground.Util.Promises.{Future, ready}
use cpp_grcp_testground.Snmp.Values.{Oid, Vb, Library}
use cpp_grcp_testground.Snmp.Target.{Target}
use cpp_grcp_testground.Snmp.Client.{
  SnmpClient, SnmpResponse, SnmpResult, Reason, async_response, timeout, other_reason, new_request,
  get_async, get_bulk_async, walk_async, callback, get_result, nothing_further,
}
use cpp_grcp_testground.Snmp.Client.Answers.{
  IsConsistent, create_request-pending, callback-result, valid_binds, get_loop-variables,
}

-- `get` of a future: what it holds after the SNMP library has worked for a while. The call does not
-- return from a future that waits, and throws on a broken one.
abbrev pub await : (SnmpClient → SnmpClient) → ℕ → SnmpClient → Future SnmpResult × SnmpClient
await work i c = let later = work c in (later.futures.state i, later)

module _ (decimal : ℕ → Str) (lib : Library) (work : SnmpClient → SnmpClient) where
  unfoldable pub get : Str → List Oid → Target → SnmpClient → Future SnmpResult × SnmpClient
  get uuid oids target c = await work c.futures.next (get_async decimal lib uuid oids target c).0

  unfoldable pub get_bulk :
      Str
      → List Oid
      → Target
      → (non_repeaters max_reps : ℕ) → SnmpClient
      → Future SnmpResult × SnmpClient
  get_bulk uuid oids target non_repeaters max_reps c =
      await work c.futures.next
        (get_bulk_async decimal lib uuid oids target non_repeaters max_reps c).0

  unfoldable pub walk : Str → Oid → Target → SnmpClient → Future SnmpResult × SnmpClient
  walk uuid oid target c = await work c.futures.next (walk_async decimal lib uuid oid target c).0

  -- The calls for one identifier.
  unfoldable pub get_one : Str → Oid → Target → SnmpClient → Future SnmpResult × SnmpClient
  unfolding get
  get_one uuid oid target c = get uuid (oid ∷ []) target c

  unfoldable pub get_bulk_one :
      Str
      → Oid
      → Target
      → (non_repeaters max_reps : ℕ) → SnmpClient
      → Future SnmpResult × SnmpClient
  unfolding get_bulk
  get_bulk_one uuid oid target non_repeaters max_reps c =
      get_bulk uuid (oid ∷ []) target non_repeaters max_reps c

-- The answer to a request, by the reason of its callback.
abbrev pub Answers : Library → Reason → List Vb → Future SnmpResult → Type 0
Answers lib async_response vbs f =
    (r : SnmpResponse) × ((f ≡ ready (ok r)) × (r.variables ≡ valid_binds lib vbs))
Answers lib timeout vbs f = f ≡ ready (err timed_out)
Answers lib other_reason vbs f = f ≡ ready (err unknown)

result-Answers :
    (lib : Library) (reason : Reason) (vbs : List Vb) (uuid : Str) (target : Target) (n : ℕ)
    (f : Future SnmpResult)
    → f ≡ ready (get_result lib reason vbs (new_request uuid target n))
    → Answers lib reason vbs f
result-Answers lib async_response vbs uuid target n f e =
    let request = new_request uuid target n in
    (_, (e, get_loop-variables lib request vbs request.response))
result-Answers lib timeout vbs uuid target n f e = e
result-Answers lib other_reason vbs uuid target n f e = e

-- Where requests and futures agree, a synchronous `get` under a new identifier, for which the library
-- calls back once, returns the valid variables of the reply in their order, or the error of a timeout
-- or of any other reason; requests and futures agree afterwards, and the request is gone.
pub get-Answers :
    (decimal : ℕ → Str) (lib : Library) (starts_with : Oid → Oid → Bool) (reason : Reason)
    (vbs : List Vb) (uuid : Str) (oids : List Oid) (target : Target) (c : SnmpClient)
    → IsConsistent c
    → lookup uuid c.pending_requests ≡ none
    → (c' : SnmpClient) × (callback lib starts_with reason vbs uuid
          (get_async decimal lib uuid oids target c).0
        ≡ some (c', nothing_further))
      × IsConsistent c'
      × (lookup uuid c'.pending_requests ≡ none)
      × Answers lib reason vbs (get decimal lib (λ _. c') uuid oids target c).0
unfolding get get_async
get-Answers decimal lib starts_with reason vbs uuid oids target c h fresh =
    let made = create_request-pending uuid uuid target c c.futures.next h fresh in
    let request = new_request uuid target c.futures.next in
    let r =
      callback-result lib starts_with reason vbs uuid uuid request
        (get_async decimal lib uuid oids target c).0 c.futures.next made.0
        (made.1 ∙ rw (same_refl uuid) refl) refl in
    (
      r.0,
      r.1,
      r.2,
      r.3 ∙ rw (same_refl uuid) refl,
      result-Answers lib reason vbs uuid target c.futures.next _ (r.4 ∙ ground arith),
    )
