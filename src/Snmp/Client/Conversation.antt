-- ===== src/Snmp/Client/Conversation.antt =====
-- What the callbacks of one walk of SnmpClient.cpp ask the library for.
use cpp_grcp_testground.Prelude.{
  ◌≡◌, refl, sym, ap, ◌∙◌, Bool, true, Option, none, some, List, [], ◌∷◌, ◌++◌, Str, map, All,
}
use mathlib.Core.List.{append-nil, append_assoc}
use cpp_grcp_testground.Prelude.Map.{Map, lookup, insert, lookup-insert_self}
use cpp_grcp_testground.Prelude.Strings.{str_order}
use cpp_grcp_testground.Snmp.Values.{Vb, VarBind, Library, Oid, var_bind}
use cpp_grcp_testground.Snmp.Client.{
  SnmpClient, SnmpRequest, async_response, callback, Further, nothing_further, get_bulk_from,
  last_of, conclude, collected,
}
use cpp_grcp_testground.Snmp.Client.Walks.{walk_loop-inside}
use cpp_grcp_testground.Snmp.Client.Replies.{IsCollected, callback-conclude, every_inside}

-- A reply with at least one variable: those before its last one, and that.
abbrev pub Reply : Type 0
Reply = List Vb × Vb

abbrev pub variables_of : Reply → List Vb
variables_of r = r.0 ++ (r.1 ∷ [])

abbrev pub Asked : Type 0
Asked = List (Option Vb) × SnmpClient

abbrev noted : Option Vb → Option Asked → Option Asked
noted vb none = none
noted vb (some (asked, c)) = some (vb ∷ asked, c)

-- A callback that asks for nothing further ends the conversation before its replies do.
abbrev ask_on : (SnmpClient → Option Asked) → Option (SnmpClient × Further) → Option Asked
ask_on later none = none
ask_on later (some (c, nothing_further)) = none
ask_on later (some (c, get_bulk_from vb)) = noted vb (later c)

last_of-append : (xs : List Vb) (last : Vb) → last_of (xs ++ (last ∷ [])) ≡ some last
last_of-append [] last = refl
last_of-append (x ∷ []) last = refl
last_of-append (x ∷ (y ∷ xs)) last = last_of-append (y ∷ xs) last

module _ (lib : Library) (starts_with : Oid → Oid → Bool) (uuid : Str) where
  -- What is asked for after each of the replies.
  abbrev pub converse : List Reply → SnmpClient → Option Asked
  converse [] c = some ([], c)
  converse (r ∷ replies) c =
      ask_on (converse replies) (callback lib starts_with async_response (variables_of r) uuid c)

  abbrev pub binds_of : List Reply → List VarBind
  binds_of [] = []
  binds_of (r ∷ replies) = map (var_bind lib) (variables_of r) ++ binds_of replies

  -- A reply to a walk that is pending with the identifier it began with.
  goes_on :
      (r : Reply) (root : Oid) (request : SnmpRequest) (c : SnmpClient)
      → lookup uuid c.pending_requests ≡ some request
      → request.is_walk ≡ true
      → request.walk_oid ≡ some root
      → All (IsCollected starts_with root) (variables_of r)
      → let all = request.response.variables ++ map (var_bind lib) (variables_of r) in
        (m : Map Str SnmpRequest) × (callback lib starts_with async_response (variables_of r) uuid c
          ≡ some (record c { pending_requests = m }, get_bulk_from (some r.1)))
        × (lookup uuid m ≡ some (record request { response = collected all request }))
  goes_on r root request c pending walk subtree h =
      let vbs = variables_of r in
      let walked =
        walk_loop-inside lib (starts_with root) vbs request.response.variables
          (every_inside lib starts_with root vbs h) in
      let all = request.response.variables ++ map (var_bind lib) vbs in
      let kept : SnmpRequest = record request { response = collected all request } in
      let m = insert uuid kept c.pending_requests in
      let next : SnmpClient = record c { pending_requests = m } in
      (
        m,
        callback-conclude lib starts_with uuid vbs root request c pending walk subtree
            ∙ ap (λ w. conclude uuid request vbs w c) walked
            ∙ ap (λ vb. some (next, get_bulk_from vb)) (last_of-append r.0 r.1),
        lookup-insert_self uuid kept c.pending_requests,
      )

  -- A walk does not end by itself. It is pending with the identifier that it began with. However many
  -- replies come in, if each has a variable and all variables have identifiers that start with that
  -- one, by the library's comparison, and none is the end of the view, whether they have come before
  -- or not, then every callback asks for what comes after the last variable of its reply. No future
  -- changes, and the request stays and has collected all variables, in their order, behind those that
  -- its response had.
  pub converse-collects :
      (replies : List Reply) (root : Oid) (request : SnmpRequest) (c : SnmpClient)
      → lookup uuid c.pending_requests ≡ some request
      → request.is_walk ≡ true
      → request.walk_oid ≡ some root
      → All (λ r. All (IsCollected starts_with root) (variables_of r)) replies
      → (c' : SnmpClient) × (converse replies c ≡ some (map (λ r. some r.1) replies, c'))
        × (c'.futures ≡ c.futures)
        × (lookup uuid c'.pending_requests
            ≡ some (record request {
              response = record request.response {
                variables = request.response.variables ++ binds_of replies;
              };
            }))
  converse-collects [] root request c pending walk subtree h = (
    c,
    refl,
    refl,
    pending
        ∙ ap (λ l. some (record request { response = collected l request }))
            (sym (append-nil request.response.variables)),
  )
  converse-collects (r ∷ replies) root request c pending walk subtree h =
      let (m, ran, kept) = goes_on r root request c pending walk subtree h.0 in
      let now = map (var_bind lib) (variables_of r) in
      let (c', later, futures, still) =
        converse-collects replies root
          (record request { response = collected (request.response.variables ++ now) request })
          (record c { pending_requests = m }) kept walk subtree h.1 in
      (
        c',
        ap (ask_on (converse replies)) ran ∙ ap (noted (some r.1)) later,
        futures,
        still
            ∙ ap (λ l. some (record request { response = collected l request }))
                (append_assoc request.response.variables now (binds_of replies)),
      )
