-- ===== src/Tests/Snmp.antt =====
-- The SNMP client on concrete replies.
use cpp_grcp_testground.Prelude.{
  ℕ, ◌≡◌, ◌≢◌, refl, Bool, true, false, Option, some, List, [], ◌∷◌, ◌++◌, Str, ok, err, arith,
  ◌==◌, inl,
}
use cpp_grcp_testground.Prelude.ErrorType.{timed_out, not_found}
use cpp_grcp_testground.Prelude.Map.{lookup}
use cpp_grcp_testground.Prelude.Strings.{str_order}
use cpp_grcp_testground.Util.Promises.{broken, ready}
use cpp_grcp_testground.Models.Time.{pos}
use cpp_grcp_testground.Models.Device.{v3, new_device, set_last_used_snmp_version}
use cpp_grcp_testground.Repo.DeviceRepository.{Store}
use cpp_grcp_testground.Snmp.Values.{Oid, Vb, var_bind, int, gauge32, Library}
use cpp_grcp_testground.Snmp.Target.{Target, create_v2}
use cpp_grcp_testground.Snmp.Client.{
  SnmpClient, SnmpRequest, new_request, create_request, walk_async, callback, async_response,
  nothing_further,
}
use cpp_grcp_testground.Snmp.Client.Answers.{IsConsistent, create_request-pending, callback-answers}
use cpp_grcp_testground.Snmp.Client.Conversation.{converse, converse-collects}
use cpp_grcp_testground.Snmp.Client.Replies.{receive_all, receive_all-collects}
use cpp_grcp_testground.Net.IPv4Address.{default_address}
use cpp_grcp_testground.Tests.Data.{host, mac, decimal}
use cpp_grcp_testground.Snmp.Client.{timeout, get_async}
use cpp_grcp_testground.Snmp.Client.Blocking.{get-Answers}

abbrev pub lib : Library
lib = record {
  printable = λ o. o;
  parse = λ s. ok s;
  buffer = λ bytes. bytes ++ (0 ∷ []);
  print_value = λ v. [];
  garbage = [];
}

abbrev target : Target
target = create_v2 host [] []

abbrev pub unused : SnmpClient
unused = record { pending_requests = []; futures = record { next = 0; state = λ _. broken } }

unused-IsConsistent : IsConsistent unused
unused-IsConsistent = record { sorted = tt; fresh = tt; distinct = tt; tracked = λ i h. refl }

abbrev pub key : Str
key = 1 ∷ 2 ∷ []

abbrev asked : SnmpClient
asked = create_request key target unused

asked-IsConsistent : IsConsistent asked
unfolding lookup
asked-IsConsistent = (create_request-pending key key target unused 0 unused-IsConsistent refl).0

asked-pending : lookup key asked.pending_requests ≡ some (new_request key target 0)
unfolding lookup create_request cpp_grcp_testground.Prelude.Map.insert
    cpp_grcp_testground.Prelude.Strings.str_less
asked-pending = refl

abbrev pub vb : Vb
vb = record { oid = 1 ∷ 3 ∷ 5 ∷ []; valid = true; value = int (pos 7) }

abbrev pub outer : Vb
outer = record { oid = 2 ∷ []; valid = true; value = gauge32 7 }

-- Whether an identifier starts with the number that the other starts with.
abbrev pub starts_with : Oid → Oid → Bool
starts_with [] _ = true
starts_with (_ ∷ _) [] = false
starts_with (a ∷ _) (b ∷ _) = a == b

callback-answers_example :
    (c' : SnmpClient) × (callback lib starts_with async_response (vb ∷ []) key asked
      ≡ some (c', nothing_further))
callback-answers_example =
    let r =
      callback-answers lib starts_with async_response (vb ∷ []) key key (new_request key target 0)
        asked 0 asked-IsConsistent asked-pending refl in
    (r.0, r.1)

abbrev walking : SnmpClient
walking = (walk_async decimal lib key (1 ∷ []) target unused).0

abbrev walk_request : SnmpRequest
walk_request = record (new_request key target 0) { is_walk = true; walk_oid = some (1 ∷ []) }

walking-pending : lookup key walking.pending_requests ≡ some walk_request
unfolding lookup walk_async cpp_grcp_testground.Prelude.Map.insert
    cpp_grcp_testground.Prelude.Strings.str_less
walking-pending = refl

-- Two replies, the second of which leaves the subtree; the future has the two variables.
receive_all-collects_example :
    (c' : SnmpClient) × (receive_all lib starts_with key
        ((vb ∷ []) ∷ (vb ∷ outer ∷ []) ∷ [])
        walking
      ≡ some c')
    × (c'.futures.state 0
        ≡ ready (
            ok (record {
              host = default_address;
              variables = var_bind lib vb ∷ var_bind lib vb ∷ [];
            })))
unfolding walk_async lookup
receive_all-collects_example =
    let r =
      receive_all-collects lib starts_with key (1 ∷ []) walk_request walking
        ((vb ∷ []) ∷ (vb ∷ outer ∷ []) ∷ []) (vb ∷ vb ∷ []) outer [] 0 walking-pending refl refl
        refl refl ((refl, (λ e. cc)), ((refl, (λ e. cc)), tt)) (inl refl) in
    (r.0, r.1, r.2)

-- The same reply twice: the walk goes on.
converse-collects_example :
    (c' : SnmpClient) × (converse lib starts_with key (([], vb) ∷ ([], vb) ∷ []) walking
      ≡ some (some vb ∷ some vb ∷ [], c'))
unfolding walk_async lookup
converse-collects_example =
    let r =
      converse-collects lib starts_with key (([], vb) ∷ ([], vb) ∷ []) (1 ∷ []) walk_request walking
        walking-pending refl refl (((refl, (λ e. cc)), tt), (((refl, (λ e. cc)), tt), tt)) in
    (r.0, r.1)

abbrev store : Store
store _ = set_last_used_snmp_version (new_device (pos 0) host mac) v3

get-Answers_example :
    (c' : SnmpClient) × (callback lib starts_with timeout [] key
        (get_async decimal lib key ((1 ∷ []) ∷ []) target unused).0
      ≡ some (c', nothing_further))
unfolding lookup
get-Answers_example =
    let r =
      get-Answers decimal lib starts_with timeout [] key ((1 ∷ []) ∷ []) target unused
        unused-IsConsistent refl in
    (r.0, r.1)
