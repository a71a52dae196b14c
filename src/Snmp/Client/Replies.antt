-- ===== src/Snmp/Client/Replies.antt =====
-- The callbacks of one walk of SnmpClient.cpp, as its replies come in.
use cpp_grcp_testground.Prelude.{
  ℕ, ◌≡◌, ◌≢◌, refl, ap, ◌==◌, Bool, true, false, Option, none, some, List, [], ◌∷◌, ◌++◌, ◌∙◌, ◌⊎◌,
  inl, inr, if◌then◌else◌, Str, ok, err, arith, map, All, Bool-cases,
}
use cpp_grcp_testground.Prelude.ErrorType.{timed_out}
use cpp_grcp_testground.Prelude.Map.{Map, lookup, lookup-insert_self}
use cpp_grcp_testground.Prelude.Strings.{str_order}
use cpp_grcp_testground.Util.Promises.{Future, ready, waits}
use cpp_grcp_testground.Net.IPv4Address.{IPv4Address}
use cpp_grcp_testground.Snmp.Values.{
  Vb, VarBind, Library, Oid, var_bind, Syntax, int, octets, cntr32, gauge32, timeticks, cntr64, oid,
  end_of_mib_view, other_syntax,
}
use cpp_grcp_testground.Snmp.Client.{
  SnmpClient, SnmpRequest, SnmpResult, async_response, callback, handle_walk, Further,
  nothing_further, get_bulk_from, Walked, finished, failed, unfinished, walk_loop, outside, at_end,
  inside, place, is_end, conclude, collected, unless_set-waits,
}
use cpp_grcp_testground.Snmp.Client.Walks.{carry, walk_replies, concat, walk_replies-collects}

-- What the future of a walk holds at its end, if `before` is what it holds while the walk goes on.
abbrev fate : IPv4Address → Walked → Future SnmpResult → Future SnmpResult
fate host (finished variables) before = ready (ok (record { host = host; variables = variables }))
fate host (failed variables) before = ready (err timed_out)
fate host (unfinished variables) before = before

-- The replies that come in for as long as the client asks for more.
abbrev go_on : (SnmpClient → Option SnmpClient) → Option (SnmpClient × Further) → Option SnmpClient
go_on later none = none
go_on later (some (c, nothing_further)) = some c
go_on later (some (c, get_bulk_from vb)) = later c

module _ (lib : Library) (starts_with : Oid → Oid → Bool) (uuid : Str) where
  abbrev pub receive_all : List (List Vb) → SnmpClient → Option SnmpClient
  receive_all [] c = some c
  receive_all (vbs ∷ replies) c =
      go_on (receive_all replies) (callback lib starts_with async_response vbs uuid c)

  -- A client in which only the future of the request has changed, to what the walk came to.
  abbrev Ends : Walked → SnmpRequest → SnmpClient → ℕ → Option SnmpClient → Type 0
  Ends walked request c j after =
      (c' : SnmpClient) × ((after ≡ some c')
        × (c'.futures.state j ≡ (
            if j == request.promise
            then fate request.response.host walked (c.futures.state request.promise)
            else c.futures.state j)))

  pub callback-conclude :
      (vbs : List Vb) (root : Oid) (request : SnmpRequest) (c : SnmpClient)
      → lookup uuid c.pending_requests ≡ some request
      → request.is_walk ≡ true
      → request.walk_oid ≡ some root
      → callback lib starts_with async_response vbs uuid c
        ≡ conclude uuid request vbs
            (walk_loop lib (starts_with root) vbs request.response.variables)
            c
  unfolding callback handle_walk
  callback-conclude vbs root request c pending walk subtree = ground arith

  conclude-Ends :
      (replies : List (List Vb)) (vbs : List Vb) (root : Oid) (request : SnmpRequest)
      (c : SnmpClient) (j : ℕ) (walked : Walked)
      → waits (c.futures.state request.promise) ≡ true
      → ((more : List VarBind) (m : Map Str SnmpRequest)
          → lookup uuid m ≡ some (record request { response = collected more request })
          → let next = record c { pending_requests = m } in
            Ends
              (walk_replies lib (starts_with root) replies more)
              request
              c
              j
              (receive_all replies next))
      → Ends
          (carry (walk_replies lib (starts_with root) replies) walked)
          request
          c
          j
          (go_on (receive_all replies) (conclude uuid request vbs walked c))
  conclude-Ends replies vbs root request c j (finished variables) w later =
      (_, (ap (go_on (receive_all replies)) (unless_set-waits request.promise c _ w), ground arith))
  conclude-Ends replies vbs root request c j (failed variables) w later =
      (_, (ap (go_on (receive_all replies)) (unless_set-waits request.promise c _ w), ground arith))
  conclude-Ends replies vbs root request c j (unfinished variables) w later =
      later variables _ (lookup-insert_self uuid _ c.pending_requests)

  receive_all-Ends :
      (replies : List (List Vb)) (root : Oid) (request : SnmpRequest) (c : SnmpClient) (j : ℕ)
      → lookup uuid c.pending_requests ≡ some request
      → request.is_walk ≡ true
      → request.walk_oid ≡ some root
      → waits (c.futures.state request.promise) ≡ true
      → Ends
          (walk_replies lib (starts_with root) replies request.response.variables)
          request
          c
          j
          (receive_all replies c)
  unfolding walk_replies
  receive_all-Ends [] root request c j pending walk subtree w = (c, (refl, ground arith))
  receive_all-Ends (vbs ∷ replies) root request c j pending walk subtree w =
      let walked = walk_loop lib (starts_with root) vbs request.response.variables in
      rw (callback-conclude vbs root request c pending walk subtree) (
        conclude-Ends replies vbs root request c j walked w (λ more m e.
          receive_all-Ends replies root (record request { response = collected more request })
            (record c { pending_requests = m }) j e walk subtree w))

is_end-false : (value : Syntax) → value ≢ end_of_mib_view → is_end value ≡ false
is_end-false (int n) other = refl
is_end-false (octets bytes) other = refl
is_end-false (cntr32 n) other = refl
is_end-false (gauge32 n) other = refl
is_end-false (timeticks n) other = refl
is_end-false (cntr64 n) other = refl
is_end-false (oid o) other = refl
is_end-false end_of_mib_view other = absurd (other refl)
is_end-false other_syntax other = refl

-- A variable that a walk collects: its identifier starts with that of the walk, and it is not the end
-- of the view.
abbrev pub IsCollected : (Oid → Oid → Bool) → Oid → Vb → Type 0
IsCollected starts_with root vb = (starts_with root vb.oid ≡ true) × (vb.value ≢ end_of_mib_view)

module _ (lib : Library) (starts_with : Oid → Oid → Bool) where
  collected-inside :
      (root : Oid) (vb : Vb)
      → IsCollected starts_with root vb
      → place (starts_with root) vb ≡ inside
  unfolding place
  collected-inside root vb h = rw (h.0, is_end-false vb.value h.1) refl

  pub every_inside :
      (root : Oid) (xs : List Vb)
      → All (IsCollected starts_with root) xs
      → All (λ vb. place (starts_with root) vb ≡ inside) xs
  every_inside root [] h = tt
  every_inside root (vb ∷ xs) h = (collected-inside root vb h.0, every_inside root xs h.1)

  -- How a walk that ends with a variable leaves its future.
  abbrev Ended : Oid → Vb → SnmpRequest → List VarBind → Future SnmpResult → Type 0
  Ended root last request all f = f ≡ (
      if starts_with root last.oid
      then ready (err timed_out)
      else ready (ok (record { host = request.response.host; variables = all })))

  last-ended :
      (root : Oid) (last : Vb) (request : SnmpRequest) (all : List VarBind)
      (before : Future SnmpResult)
      → (starts_with root last.oid ≡ false) ⊎ (last.value ≡ end_of_mib_view)
      → (place (starts_with root) last ≢ inside)
        × Ended root last request all (
            fate request.response.host
              (elim (place (starts_with root) last) [
                | outside ↦ finished all
                | at_end ↦ failed all
                | inside ↦ unfinished all
              ])
              before)
  unfolding place
  last-ended root last request all before h = elim (Bool-cases (starts_with root last.oid)) [
    | inl starts ↦ elim h [
      | inl leaves ↦ absurd (ground arith)
      | inr over ↦ rw (starts, over) ((λ e. cc), refl)
    ]
    | inr leaves ↦ rw leaves ((λ e. cc), refl)
  ]

  -- The replies to a walk come in one after another for as long as the client asks for more. The walk
  -- is pending with the identifier that it began with, and its future waits. However the replies are
  -- cut up, if they bring variables whose identifiers start with that one, by the library's
  -- comparison, and then a last one whose identifier does not or that is the end of the view, every
  -- callback returns. If the identifier of the last one does not start so, the future of the walk has
  -- the variables that the response had and those before the last one, in their order, with the host
  -- of the response unchanged; at the end of the view it has the error of a timeout. No other future
  -- changes.
  pub receive_all-collects :
      (uuid : Str) (root : Oid) (request : SnmpRequest) (c : SnmpClient) (replies : List (List Vb))
      (xs : List Vb) (last : Vb) (ys : List Vb) (j : ℕ)
      → lookup uuid c.pending_requests ≡ some request
      → request.is_walk ≡ true
      → request.walk_oid ≡ some root
      → waits (c.futures.state request.promise) ≡ true
      → concat lib (starts_with root) replies ≡ xs ++ (last ∷ ys)
      → All (IsCollected starts_with root) xs
      → (starts_with root last.oid ≡ false) ⊎ (last.value ≡ end_of_mib_view)
      → (c' : SnmpClient) × (receive_all lib starts_with uuid replies c ≡ some c')
        × (c'.futures.state j ≡ (
            if j == request.promise
            then (if starts_with root last.oid
                then ready (err timed_out)
                else ready (
                    ok (record {
                      host = request.response.host;
                      variables = request.response.variables ++ map (var_bind lib) xs;
                    })))
            else c.futures.state j))
  receive_all-collects uuid root request c replies xs last ys j pending walk subtree w cut all
        ends =
      let binds = request.response.variables ++ map (var_bind lib) xs in
      let (leaves, future) =
        last-ended root last request binds (c.futures.state request.promise) ends in
      let walks =
        (walk_replies-collects lib (starts_with root) replies xs last ys request.response.variables
          (every_inside root xs all) leaves cut).1 in
      let (c', (ran, state)) =
        receive_all-Ends lib starts_with uuid replies root request c j pending walk subtree w in
      let before = c.futures.state request.promise in
      (
        c',
        ran,
        state
            ∙ ap (λ f. if j == request.promise then f else c.futures.state j)
                (ap (λ walked. fate request.response.host walked before) walks ∙ future),
      )
