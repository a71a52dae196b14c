-- ===== src/Snmp/Client.antt =====
-- core/core/net/snmp/SnmpClient.h and SnmpClient.cpp: requests, and the callbacks that answer them.
--
-- A callback is given a pointer to a request in the table; here it is given the request's key.
pub mod Answers
pub mod Walks
pub mod Replies
pub mod Conversation
pub mod Racing
pub mod Blocking
pub mod Sound
pub mod History
use cpp_grcp_testground.Prelude.{
  ℕ, ◌+◌, ◌≡◌, refl, ◌%◌, ◌^◌, Bool, true, false, Option, none, some, List, [], ◌∷◌, ◌++◌,
  if◌then◌else◌, Str, ErrorType, Result, ok, err,
}
use cpp_grcp_testground.Prelude.ErrorType.{timed_out, unknown, unavailable}
use cpp_grcp_testground.Prelude.Map.{Map, lookup, insert, erase}
use cpp_grcp_testground.Prelude.Strings.{str_order}
use cpp_grcp_testground.Util.Promises.{Promises, make_promise, set_value, assign, waits}
use cpp_grcp_testground.Net.IPv4Address.{IPv4Address, default_address}
use cpp_grcp_testground.Snmp.Values.{
  Oid, Vb, Syntax, end_of_mib_view, VarBind, Library, var_bind, create_pdu,
}
use cpp_grcp_testground.Snmp.Target.{Target, base, PeerTarget, to_target}

pub record SnmpResponse : Type 0 where
  pub host : IPv4Address
  pub variables : List VarBind

abbrev pub SnmpResult : Type 0
SnmpResult = Result SnmpResponse ErrorType

-- `SnmpRequest`; the promise is known by its number.
pub record SnmpRequest : Type 0 where
  pub uuid : Str
  pub host : IPv4Address
  pub promise : ℕ
  pub response : SnmpResponse
  pub is_walk : Bool
  pub walk_oid : Option Oid

abbrev pub promise_of : SnmpRequest → ℕ
promise_of r = r.promise

pub record SnmpClient : Type 0 where
  pub pending_requests : Map Str SnmpRequest
  pub futures : Promises SnmpResult

-- What is handed to the SNMP library: the kind of the request, the identifiers in their text and the
-- target.
pub data Sent : Type 0 where
  get_request : List Str → PeerTarget → Sent
  get_bulk_request : List Str → PeerTarget → (non_repeaters max_reps : ℕ) → Sent

abbrev pub new_request : Str → Target → ℕ → SnmpRequest
new_request uuid target promise = record {
  uuid = uuid;
  host = (base target).ip_address;
  promise = promise;
  response = record { host = default_address; variables = [] };
  is_walk = false;
  walk_oid = none;
}

-- A request with the next promise is entered under its identifier.
abbrev pub enter : SnmpRequest → SnmpClient → SnmpClient
enter request c =
    let entered =
      assign promise_of request.uuid request c.pending_requests (make_promise c.futures) in
    record { pending_requests = entered.0; futures = entered.1 }

-- `createRequest`; `uuid` is the identifier that is generated.
unfoldable pub create_request : Str → Target → SnmpClient → SnmpClient
create_request uuid target c = enter (new_request uuid target c.futures.next) c

abbrev promise_in : Option SnmpRequest → Option ℕ
promise_in none = none
promise_in (some request) = some request.promise

-- `get_future` of the promise of a request that was sent; `none` is the use of one that was erased.
unfoldable pub take_future : Str → SnmpClient → Option ℕ
take_future uuid c = promise_in (lookup uuid c.pending_requests)

module _ (decimal : ℕ → Str) (lib : Library) where
  -- The future that each of the three returns has the number `c.futures.next` if the library has not
  -- called back by then: the source takes it, by `take_future`, after the request was handed over.
  unfoldable pub get_async : Str → List Oid → Target → SnmpClient → SnmpClient × Sent
  get_async uuid oids target c =
      (create_request uuid target c, get_request (create_pdu lib oids) (to_target decimal target))

  unfoldable pub get_bulk_async :
      Str → List Oid → Target → (non_repeaters max_reps : ℕ) → SnmpClient → SnmpClient × Sent
  get_bulk_async uuid oids target non_repeaters max_reps c = (
    create_request uuid target c,
    get_bulk_request (create_pdu lib oids) (to_target decimal target) non_repeaters max_reps,
  )

  unfoldable pub walk_async : Str → Oid → Target → SnmpClient → SnmpClient × Sent
  walk_async uuid oid target c = (
    enter (record (new_request uuid target c.futures.next) { is_walk = true; walk_oid = some oid })
        c,
    get_bulk_request (create_pdu lib (oid ∷ [])) (to_target decimal target) 0 10,
  )

module _ (decimal : ℕ → Str) (lib : Library) where
  -- The calls for one identifier.
  unfoldable pub get_one_async : Str → Oid → Target → SnmpClient → SnmpClient × Sent
  get_one_async uuid oid target c = get_async decimal lib uuid (oid ∷ []) target c

  unfoldable pub get_bulk_one_async :
      Str → Oid → Target → (non_repeaters max_reps : ℕ) → SnmpClient → SnmpClient × Sent
  get_bulk_one_async uuid oid target non_repeaters max_reps c =
      get_bulk_async decimal lib uuid (oid ∷ []) target non_repeaters max_reps c

-- Why the library calls back.
pub data Reason : Type 0 where
  async_response timeout other_reason : Reason

-- The loop of `handleGet` over the variables of the PDU.
unfoldable pub get_loop : Library → IPv4Address → List Vb → SnmpResponse → SnmpResponse
get_loop lib host [] response = response
get_loop lib host (vb ∷ vbs) response = get_loop lib host vbs (record {
  host = host;
  variables = if vb.valid then response.variables ++ (var_bind lib vb ∷ []) else response.variables;
})

abbrev pub get_result : Library → Reason → List Vb → SnmpRequest → SnmpResult
get_result lib async_response vbs request = ok (get_loop lib request.host vbs request.response)
get_result lib timeout vbs request = err timed_out
get_result lib other_reason vbs request = err unknown

-- What a callback asks the library for at its end: nothing, or the variables after the last one that
-- was read from the reply, ten at most; with a reply that has none, after a `Vb` that is empty.
pub data Further : Type 0 where
  nothing_further : Further
  get_bulk_from : Option Vb → Further

-- What a callback comes to that sets a promise; `none` is the exception `future_error` of a promise
-- that has been set, which leaves the callback.
abbrev pub unless_set : ℕ → SnmpClient → SnmpClient × Further → Option (SnmpClient × Further)
unless_set promise c after = if waits (c.futures.state promise) then some after else none

pub unless_set-waits :
    (promise : ℕ) (c : SnmpClient) (after : SnmpClient × Further)
    → waits (c.futures.state promise) ≡ true
    → unless_set promise c after ≡ some after
unless_set-waits promise c after w = rw w refl

-- `handleGet`: the request is erased at the end of every branch.
unfoldable pub handle_get :
    Library → Reason → List Vb → Str → SnmpRequest → SnmpClient → Option (SnmpClient × Further)
handle_get lib reason vbs uuid request c = unless_set request.promise c (
  record {
    pending_requests = erase uuid c.pending_requests;
    futures = set_value request.promise (get_result lib reason vbs request) c.futures;
  },
  nothing_further,
)

-- How the loop of `handleWalk` leaves off: with the promise set to what was collected or to an error,
-- or with a further request to send.
pub data Walked : Type 0 where
  finished failed unfinished : List VarBind → Walked

abbrev pub is_end : Syntax → Bool
is_end end_of_mib_view = true
is_end _ = false

-- Whether a `Vb` is collected: its identifier starts with that of the request, by the library's
-- comparison, and it is not the end of the view.
pub data Place : Type 0 where
  outside at_end inside : Place

unfoldable pub place : (Oid → Bool) → Vb → Place
place starts vb = if starts vb.oid then (if is_end vb.value then at_end else inside) else outside

-- The loop of `handleWalk` over the variables of the PDU, given those collected so far.
unfoldable pub walk_loop : Library → (Oid → Bool) → List Vb → List VarBind → Walked
walk_loop lib starts [] variables = unfinished variables
walk_loop lib starts (vb ∷ vbs) variables = elim (place starts vb) [
  | outside ↦ finished variables
  | at_end ↦ failed variables
  | inside ↦ walk_loop lib starts vbs (variables ++ (var_bind lib vb ∷ []))
]

abbrev pub collected : List VarBind → SnmpRequest → SnmpResponse
collected variables request = record request.response { variables = variables }

abbrev pub last_of : List Vb → Option Vb
last_of [] = none
last_of (vb ∷ []) = some vb
last_of (vb ∷ (next ∷ vbs)) = last_of (next ∷ vbs)

-- What is done with the request, which stays in the table.
abbrev pub conclude :
    Str → SnmpRequest → List Vb → Walked → SnmpClient → Option (SnmpClient × Further)
conclude uuid request vbs (finished variables) c = unless_set request.promise c (
  record {
    pending_requests =
        insert uuid (record request { response = collected variables request }) c.pending_requests;
    futures = set_value request.promise (ok (collected variables request)) c.futures;
  },
  nothing_further,
)
conclude uuid request vbs (failed variables) c = unless_set request.promise c (
  record {
    pending_requests =
        insert uuid (record request { response = collected variables request }) c.pending_requests;
    futures = set_value request.promise (err timed_out) c.futures;
  },
  nothing_further,
)
conclude uuid request vbs (unfinished variables) c = some (
  record c {
    pending_requests =
        insert uuid (record request { response = collected variables request }) c.pending_requests;
  },
  get_bulk_from (last_of vbs),
)

-- `handleWalk` for a reason other than a timeout.
abbrev pub advance :
    Library
    → (Oid → Bool)
    → List Vb
    → Str
    → SnmpRequest
    → SnmpClient
    → Option (SnmpClient × Further)
advance lib starts vbs uuid request c =
    conclude uuid request vbs (walk_loop lib starts vbs request.response.variables) c

-- `handleWalk`; `starts_with` is the library's comparison of an identifier with that of the request.
unfoldable pub handle_walk :
    Library
    → (Oid → Oid → Bool)
    → Oid
    → Reason
    → List Vb
    → Str
    → SnmpRequest
    → SnmpClient
    → Option (SnmpClient × Further)
handle_walk lib starts_with oid timeout vbs uuid request c =
    unless_set request.promise c
      (record c { futures = set_value request.promise (err timed_out) c.futures }, nothing_further)
handle_walk lib starts_with oid async_response vbs uuid request c =
    advance lib (starts_with oid) vbs uuid request c
handle_walk lib starts_with oid other_reason vbs uuid request c =
    advance lib (starts_with oid) vbs uuid request c

abbrev dispatch :
    Library
    → (Oid → Oid → Bool)
    → Reason
    → List Vb
    → Str
    → Option SnmpRequest
    → SnmpClient
    → Option (SnmpClient × Further)
dispatch lib starts_with reason vbs uuid none c = none
dispatch lib starts_with reason vbs uuid (some request) c = elim request.is_walk [
  | false ↦ handle_get lib reason vbs uuid request c
  | true ↦ elim request.walk_oid [
    | none ↦ none
    | some oid ↦ handle_walk lib starts_with oid reason vbs uuid request c
  ]
]

-- `callback`; `none` is the use of a request that was erased, the exception of a promise that has been
-- set already, or a walk without an identifier.
unfoldable pub callback :
    Library
    → (Oid → Oid → Bool)
    → Reason
    → List Vb
    → Str
    → SnmpClient
    → Option (SnmpClient × Further)
callback lib starts_with reason vbs uuid c =
    dispatch lib starts_with reason vbs uuid (lookup uuid c.pending_requests) c

-- `initializeV3`: the boot counter is loaded, raised and saved. The library's calls answer with their
-- status: whether the counter could be used or the file is new, whether it was saved, whether the
-- model was made.
unfoldable pub initialize_v3 {ℓ} :
    {M : Type ℓ} → Bool → ℕ → (ℕ → Bool) → (ℕ → Option M) → Result M ErrorType
initialize_v3 loaded boots save make =
    if loaded
    then (let boots' = (boots + 1) % 2 ^ 32 in
        if save boots'
        then elim (make boots') [ none ↦ err unavailable | some model ↦ ok model ]
        else err unavailable)
    else err unavailable

-- `create`: any failure is an unknown error.
unfoldable pub create {ℓ κ} :
    {S : Type ℓ} {M : Type κ} → Option S → Result M ErrorType → Result (S × M) ErrorType
create none model = err unknown
create (some snmp) (err _) = err unknown
create (some snmp) (ok model) = ok (snmp, model)
