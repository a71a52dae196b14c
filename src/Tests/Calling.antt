-- ===== src/Tests/Calling.antt =====
-- The SNMP client between requests and callbacks.
use cpp_grcp_testground.Prelude.{◌≡◌, refl, some, List, [], ◌∷◌, Str}
use cpp_grcp_testground.Prelude.Map.{has, lookup, insert, erase}
use cpp_grcp_testground.Prelude.Strings.{str_less}
use cpp_grcp_testground.Snmp.Target.{Target, create_v2}
use cpp_grcp_testground.Snmp.Client
use cpp_grcp_testground.Snmp.Client.{SnmpClient, async_response, timeout}
use cpp_grcp_testground.Snmp.Client.Sound.{IsSound}
use cpp_grcp_testground.Snmp.Client.History.{
  Event, got, walked, called_back, history, history-IsSound,
}
use cpp_grcp_testground.Tests.Data.{host, decimal}
use cpp_grcp_testground.Tests.Snmp.{lib, unused, key, vb, starts_with}

abbrev target : Target
target = create_v2 host [] []

abbrev walk_key : Str
walk_key = 3 ∷ []

-- A walk gets one reply, a get is answered, and the walk times out.
abbrev events : List Event
events =
    walked walk_key (1 ∷ []) target
    ∷ got key ((1 ∷ []) ∷ []) target
    ∷ called_back async_response (vb ∷ []) walk_key
    ∷ called_back async_response (vb ∷ []) key
    ∷ called_back timeout [] walk_key
    ∷ []

unused-IsSound : IsSound unused
unused-IsSound = record {
  sorted = tt;
  fresh = tt;
  distinct = tt;
  owned = λ i lt live. live;
  coherent = tt;
}

history-IsSound_example :
    (c : SnmpClient) × (history decimal lib starts_with events unused ≡ some c) × IsSound c
unfolding has lookup Client.get_async Client.create_request insert Client.walk_async str_less
    Client.callback Client.handle_walk Client.walk_loop Client.place Client.handle_get erase
history-IsSound_example = history-IsSound decimal lib starts_with events unused unused-IsSound refl
