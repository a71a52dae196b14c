-- ===== src/Snmp/Client/Answers.antt =====
-- The requests of the SNMP client and the futures of `getAsync`.
use cpp_grcp_testground.Prelude.{
  ℕ, ◌≡◌, refl, sym, ◌==◌, Bool, false, none, some, List, [], ◌∷◌, ◌++◌, ◌∙◌, if◌then◌else◌, Str,
  ok, err, arith,
}
use mathlib.Core.List.{append-nil, append_assoc}
use cpp_grcp_testground.Prelude.Map.{same, lookup, lookup-erase, lookup-insert, erase}
use cpp_grcp_testground.Prelude.Strings.{str_order}
use cpp_grcp_testground.Prelude.ErrorType.{timed_out, unknown}
use cpp_grcp_testground.Util.Promises.{Future, ready, waiting, set_value}
use cpp_grcp_testground.Util.Promises.Tracking.{Tracks}
use cpp_grcp_testground.Util.Promises.Keeping.{
  set_value-Tracks, assign-Tracks, lookup-waits, assign-state,
}
use cpp_grcp_testground.Snmp.Values.{Vb, VarBind, Library, Oid, var_bind}
use cpp_grcp_testground.Snmp.Target.{Target}
use cpp_grcp_testground.Snmp.Client.{
  SnmpClient, SnmpRequest, SnmpResponse, promise_of, Reason, async_response, timeout, other_reason,
  get_loop, get_result, handle_get, nothing_further, callback, SnmpResult, create_request,
  new_request,
}

-- The requests and the futures agree: the futures that wait are those of the requests.
abbrev pub IsConsistent : SnmpClient → Type 0
IsConsistent c = Tracks promise_of c.pending_requests c.futures

pub callback-result :
    (lib : Library) (starts_with : Oid → Oid → Bool) (reason : Reason) (vbs : List Vb)
    (uuid k : Str) (request : SnmpRequest) (c : SnmpClient) (j : ℕ)
    → IsConsistent c
    → lookup uuid c.pending_requests ≡ some request
    → request.is_walk ≡ false
    → (c' : SnmpClient) × (callback lib starts_with reason vbs uuid c ≡ some (c', nothing_further))
      × IsConsistent c'
      × (lookup k c'.pending_requests ≡ (if same k uuid then none else lookup k c.pending_requests))
      × (c'.futures.state j ≡ (
          if j == request.promise
          then ready (get_result lib reason vbs request)
          else c.futures.state j))
      × (c'.futures.state request.promise ≡ ready (get_result lib reason vbs request))
unfolding callback handle_get
callback-result lib starts_with reason vbs uuid k request c j h pending simple =
    let waited = lookup-waits promise_of c.pending_requests c.futures uuid request h pending in
    let answer = get_result lib reason vbs request in
    (
      record {
        pending_requests = erase uuid c.pending_requests;
        futures = set_value request.promise answer c.futures;
      },
      ground arith,
      set_value-Tracks promise_of c.pending_requests c.futures uuid request answer h pending,
      lookup-erase k uuid c.pending_requests,
      ground arith,
      ground arith,
    )

-- The variables of a PDU that are valid, in their order.
abbrev pub valid_binds : Library → List Vb → List VarBind
valid_binds lib [] = []
valid_binds lib (vb ∷ vbs) =
    if vb.valid then var_bind lib vb ∷ valid_binds lib vbs else valid_binds lib vbs

-- The loop over the variables of a PDU adds the valid ones, in their order, to those that the
-- response has.
pub get_loop-variables :
    (lib : Library) (request : SnmpRequest) (vbs : List Vb) (response : SnmpResponse)
    → (get_loop lib request.host vbs response).variables ≡ response.variables ++ valid_binds lib vbs
unfolding get_loop
get_loop-variables lib request [] response = sym (append-nil response.variables)
get_loop-variables lib request (vb ∷ vbs) response =
    let next : SnmpResponse = record {
      host = request.host;
      variables =
          if vb.valid then response.variables ++ (var_bind lib vb ∷ []) else response.variables;
    } in
    get_loop-variables lib request vbs next
    ∙ ground (arith, append_assoc response.variables (var_bind lib vb ∷ []) (valid_binds lib vbs))

-- The answer to a request that is no walk, by the reason of its callback.
abbrev pub IsAnswer : Library → Reason → List Vb → SnmpRequest → Future SnmpResult → Type 0
IsAnswer lib async_response vbs request f =
    (r : SnmpResponse) × ((f ≡ ready (ok r))
      × (r.variables ≡ request.response.variables ++ valid_binds lib vbs))
IsAnswer lib timeout vbs request f = f ≡ ready (err timed_out)
IsAnswer lib other_reason vbs request f = f ≡ ready (err unknown)

result-IsAnswer :
    (lib : Library) (reason : Reason) (vbs : List Vb) (request : SnmpRequest)
    (f : Future SnmpResult)
    → f ≡ ready (get_result lib reason vbs request)
    → IsAnswer lib reason vbs request f
result-IsAnswer lib async_response vbs request f e =
    (_, (e, get_loop-variables lib request vbs request.response))
result-IsAnswer lib timeout vbs request f e = e
result-IsAnswer lib other_reason vbs request f e = e

-- Where requests and futures agree, a callback for a pending request that is no walk answers it,
-- whatever its reason: the future of the request gets the variables that the response had and the
-- valid ones of the PDU, in their order, if the callback brings a response, the error of a timeout if
-- it reports one, and an unknown error for any other reason. No other future changes, the request,
-- and no other, is taken out, nothing further is asked for, and requests and futures agree afterwards.
pub callback-answers :
    (lib : Library) (starts_with : Oid → Oid → Bool) (reason : Reason) (vbs : List Vb)
    (uuid k : Str) (request : SnmpRequest) (c : SnmpClient) (j : ℕ)
    → IsConsistent c
    → lookup uuid c.pending_requests ≡ some request
    → request.is_walk ≡ false
    → (c' : SnmpClient) × (callback lib starts_with reason vbs uuid c ≡ some (c', nothing_further))
      × IsConsistent c'
      × (lookup k c'.pending_requests ≡ (if same k uuid then none else lookup k c.pending_requests))
      × IsAnswer lib reason vbs request (c'.futures.state request.promise)
      × (c'.futures.state j
          ≡ (if j == request.promise then c'.futures.state request.promise else c.futures.state j))
callback-answers lib starts_with reason vbs uuid k request c j h pending simple =
    let (c', ran, kept, taken, state, own) =
      callback-result lib starts_with reason vbs uuid k request c j h pending simple in
    (c', ran, kept, taken, result-IsAnswer lib reason vbs request _ own, state ∙ ground arith)

-- A new request leaves requests and futures in agreement; it is pending under its identifier, which
-- has not been used before, and the future that is returned for it waits.
pub create_request-pending :
    (uuid k : Str) (target : Target) (c : SnmpClient) (j : ℕ)
    → IsConsistent c
    → lookup uuid c.pending_requests ≡ none
    → let c' = create_request uuid target c in
      IsConsistent c'
      × (lookup k c'.pending_requests ≡ (
          if same k uuid
          then some (new_request uuid target c.futures.next)
          else lookup k c.pending_requests))
      × (c'.futures.state j ≡ (if j == c.futures.next then waiting else c.futures.state j))
unfolding create_request
create_request-pending uuid k target c j h fresh =
    let request = new_request uuid target c.futures.next in
    (
      assign-Tracks promise_of c.pending_requests c.futures uuid request h refl,
      lookup-insert k uuid request c.pending_requests,
      assign-state promise_of c.pending_requests c.futures uuid j h ∙ ground arith,
    )
