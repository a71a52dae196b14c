-- ===== src/Snmp/Client/Walks.antt =====
-- The walks of the SNMP client: what the replies to one walk come to, however they are cut up.
use cpp_grcp_testground.Prelude.{
  ◌≡◌, ◌≢◌, refl, sym, ap, Bool, true, Option, some, List, [], ◌∷◌, ◌++◌, ◌∙◌, Str, ok, err, arith,
  map, All,
}
use mathlib.Core.List.{append-nil, append_assoc}
use cpp_grcp_testground.Prelude.ErrorType.{timed_out}
use cpp_grcp_testground.Prelude.Map.{lookup, lookup-insert_self}
use cpp_grcp_testground.Prelude.Strings.{str_order}
use cpp_grcp_testground.Util.Promises.{Future, ready, waits}
use cpp_grcp_testground.Snmp.Values.{Vb, VarBind, Library, Oid, var_bind}
use cpp_grcp_testground.Snmp.Client.{
  SnmpClient, SnmpRequest, SnmpResult, Reason, async_response, timeout, other_reason, callback,
  handle_walk, Walked, finished, failed, unfinished, walk_loop, outside, at_end, inside, place,
  conclude, collected, Further, unless_set-waits,
}

-- What a walk comes to, where `rest` is what the later replies come to.
abbrev pub carry : (List VarBind → Walked) → Walked → Walked
carry rest (unfinished variables) = rest variables
carry rest (finished variables) = finished variables
carry rest (failed variables) = failed variables

module _ (lib : Library) (starts : Oid → Bool) where
  abbrev resume : List Vb → Walked → Walked
  resume vbs (unfinished variables) = walk_loop lib starts vbs variables
  resume vbs (finished variables) = finished variables
  resume vbs (failed variables) = failed variables

  -- The replies to a walk are worked through one after another, the variables collected so far being
  -- kept from one to the next, until the walk is over.
  unfoldable pub walk_replies : List (List Vb) → List VarBind → Walked
  walk_replies [] variables = unfinished variables
  walk_replies (vbs ∷ replies) variables =
      carry (walk_replies replies) (walk_loop lib starts vbs variables)

  abbrev pub concat : List (List Vb) → List Vb
  concat [] = []
  concat (vbs ∷ replies) = vbs ++ concat replies

  walk_loop-append :
      (xs ys : List Vb) (variables : List VarBind)
      → walk_loop lib starts (xs ++ ys) variables ≡ resume ys (walk_loop lib starts xs variables)
  unfolding walk_loop
  walk_loop-append [] ys variables = refl
  walk_loop-append (vb ∷ xs) ys variables =
      ground (arith, walk_loop-append xs ys (variables ++ (var_bind lib vb ∷ [])))

  carry-resume :
      (replies : List (List Vb)) (walked : Walked)
      → ((more : List VarBind)
          → walk_replies replies more ≡ walk_loop lib starts (concat replies) more)
      → carry (walk_replies replies) walked ≡ resume (concat replies) walked
  carry-resume replies (unfinished more) later = later more
  carry-resume replies (finished more) later = refl
  carry-resume replies (failed more) later = refl

  -- However the library cuts the variables of a walk up into replies, the walk comes to what it
  -- comes to if they all arrive in one.
  walk_replies-concat :
      (replies : List (List Vb)) (variables : List VarBind)
      → walk_replies replies variables ≡ walk_loop lib starts (concat replies) variables
  unfolding walk_replies walk_loop
  walk_replies-concat [] variables = refl
  walk_replies-concat (vbs ∷ replies) variables =
      carry-resume replies (walk_loop lib starts vbs variables) (walk_replies-concat replies)
      ∙ sym (walk_loop-append vbs (concat replies) variables)

  pub walk_loop-inside :
      (xs : List Vb) (variables : List VarBind)
      → All (λ vb. place starts vb ≡ inside) xs
      → walk_loop lib starts xs variables ≡ unfinished (variables ++ map (var_bind lib) xs)
  unfolding walk_loop
  walk_loop-inside [] variables h = ap unfinished (sym (append-nil variables))
  walk_loop-inside (vb ∷ xs) variables h =
      rw (h.0, walk_loop)
        (walk_loop-inside xs (variables ++ (var_bind lib vb ∷ [])) h.1
          ∙ ap unfinished (append_assoc variables (var_bind lib vb ∷ []) (map (var_bind lib) xs)))

  walk_loop-last :
      (last : Vb) (ys : List Vb) (variables : List VarBind)
      → place starts last ≢ inside
      → walk_loop lib starts (last ∷ ys) variables ≡ elim (place starts last) [
        | outside ↦ finished variables
        | at_end ↦ failed variables
        | inside ↦ unfinished variables
      ]
  unfolding walk_loop
  walk_loop-last last ys variables ends = ground (arith, ends)

  -- A walk whose replies, however they are cut up, bring variables of the subtree and then one that
  -- lies outside of it, or the end of the view, collects the former, in their order. It finishes with
  -- them in the first case and fails in the second; without a last variable it goes on.
  pub walk_replies-collects :
      (replies : List (List Vb)) (xs : List Vb) (last : Vb) (ys : List Vb)
      (variables : List VarBind)
      → All (λ vb. place starts vb ≡ inside) xs
      → place starts last ≢ inside
      → concat replies ≡ xs ++ (last ∷ ys)
      → let all = variables ++ map (var_bind lib) xs in
        (walk_replies (xs ∷ []) variables ≡ unfinished all)
        × (walk_replies replies variables ≡ elim (place starts last) [
          | outside ↦ finished all
          | at_end ↦ failed all
          | inside ↦ unfinished all
        ])
  unfolding walk_replies
  walk_replies-collects replies xs last ys variables h ends cut =
      let all = variables ++ map (var_bind lib) xs in
      let collects = walk_loop-inside xs variables h in
      (
        rw (collects, walk_replies) refl,
        walk_replies-concat replies variables
            ∙ ap (λ l. walk_loop lib starts l variables) cut
            ∙ walk_loop-append xs (last ∷ ys) variables
            ∙ ap (resume (last ∷ ys)) collects
            ∙ walk_loop-last last ys all ends,
      )

-- What a callback leaves in the future of a walk.
abbrev pub ended : Walked → SnmpRequest → Future SnmpResult → Future SnmpResult
ended (finished variables) request before = ready (ok (collected variables request))
ended (failed variables) request before = ready (err timed_out)
ended (unfinished variables) request before = before

abbrev pub concluded : Reason → Walked → SnmpRequest → Future SnmpResult → Future SnmpResult
concluded timeout walked request before = ready (err timed_out)
concluded async_response walked request before = ended walked request before
concluded other_reason walked request before = ended walked request before

abbrev Stays : Str → SnmpRequest → Future SnmpResult → Option (SnmpClient × Further) → Type 0
Stays uuid request future after =
    (c : SnmpClient) × (again : Further) × (request' : SnmpRequest) × (after ≡ some (c, again))
    × (lookup uuid c.pending_requests ≡ some request')
    × (request'.promise ≡ request.promise)
    × (request'.response.host ≡ request.response.host)
    × (c.futures.state request.promise ≡ future)

conclude-Stays :
    (uuid : Str) (request : SnmpRequest) (vbs : List Vb) (walked : Walked) (c : SnmpClient)
    → waits (c.futures.state request.promise) ≡ true
    → Stays uuid request
        (ended walked request (c.futures.state request.promise))
        (conclude uuid request vbs walked c)
conclude-Stays uuid request vbs (finished variables) c w = (
  _,
  _,
  _,
  unless_set-waits request.promise c _ w,
  lookup-insert_self uuid _ c.pending_requests,
  refl,
  refl,
  ground arith,
)
conclude-Stays uuid request vbs (failed variables) c w = (
  _,
  _,
  _,
  unless_set-waits request.promise c _ w,
  lookup-insert_self uuid _ c.pending_requests,
  refl,
  refl,
  ground arith,
)
conclude-Stays uuid request vbs (unfinished variables) c w =
    (_, _, _, refl, lookup-insert_self uuid _ c.pending_requests, refl, refl, refl)

handle_walk-Stays :
    (lib : Library) (starts_with : Oid → Oid → Bool) (oid : Oid) (reason : Reason) (vbs : List Vb)
    (uuid : Str) (request : SnmpRequest) (c : SnmpClient)
    → lookup uuid c.pending_requests ≡ some request
    → waits (c.futures.state request.promise) ≡ true
    → Stays uuid request
        (concluded reason
          (walk_loop lib (starts_with oid) vbs request.response.variables)
          request
          (c.futures.state request.promise))
        (handle_walk lib starts_with oid reason vbs uuid request c)
unfolding handle_walk
handle_walk-Stays lib starts_with oid timeout vbs uuid request c pending w =
    (_, _, request, unless_set-waits request.promise c _ w, pending, refl, refl, ground arith)
handle_walk-Stays lib starts_with oid async_response vbs uuid request c pending w =
    conclude-Stays uuid request vbs _ c w
handle_walk-Stays lib starts_with oid other_reason vbs uuid request c pending w =
    conclude-Stays uuid request vbs _ c w

-- A callback for a walk sets its future to what was collected when the walk has left the subtree,
-- and to an error at the end of the view and on a timeout, and leaves it waiting otherwise. After
-- each of them the request is still pending, and the host of its response is the one from before.
pub callback-walks :
    (lib : Library) (starts_with : Oid → Oid → Bool) (reason : Reason) (vbs : List Vb) (uuid : Str)
    (oid : Oid) (request : SnmpRequest) (c : SnmpClient)
    → lookup uuid c.pending_requests ≡ some request
    → request.is_walk ≡ true
    → request.walk_oid ≡ some oid
    → waits (c.futures.state request.promise) ≡ true
    → (c' : SnmpClient) × (again : Further) × (request' : SnmpRequest) × (callback lib starts_with
          reason vbs uuid c
        ≡ some (c', again))
      × (lookup uuid c'.pending_requests ≡ some request')
      × (request'.promise ≡ request.promise)
      × (request'.response.host ≡ request.response.host)
      × (c'.futures.state request.promise
          ≡ concluded reason
              (walk_loop lib (starts_with oid) vbs request.response.variables)
              request
              (c.futures.state request.promise))
unfolding callback
callback-walks lib starts_with reason vbs uuid oid request c pending walk subtree w =
    let r = handle_walk-Stays lib starts_with oid reason vbs uuid request c pending w in
    (r.0, r.1, r.2, rw (pending, walk, subtree) r.3, r.4, r.5, r.6, r.7)
