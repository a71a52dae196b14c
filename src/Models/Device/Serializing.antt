-- ===== src/Models/Device/Serializing.antt =====
-- Device.cpp: a device as text and as JSON.
use mathlib.Core.List.{head-eq_of_cons-eq, tail-eq_of_cons-eq}
use cpp_grcp_testground.Prelude.{
  ℕ, ◌≡◌, refl, sym, ap, ◌∙◌, Option, none, some, List, [], ◌∷◌, ◌++◌, map, Str, ok, arith, Result,
  ErrorType,
}
use cpp_grcp_testground.Prelude.Map.{Map, lookup, insert, lookup-insert}
use cpp_grcp_testground.Prelude.Strings.{str_order}
use cpp_grcp_testground.Models.Time.{ℤ}
use cpp_grcp_testground.Models.Device.{Device, SnmpVersion, v1, v2, unused_v2, v3, version_number}
use cpp_grcp_testground.Net.Bytes.{IsByte}
use cpp_grcp_testground.Net.Scan.Laws.{upper_hex}
use cpp_grcp_testground.Net.Text.{Rendering}
use cpp_grcp_testground.Net.IPv4Address
use cpp_grcp_testground.Net.IPv4Address.Conversions.{to_string-injective}
use cpp_grcp_testground.Net.MacAddress
use cpp_grcp_testground.Net.MacAddress.{MacAddress}
use cpp_grcp_testground.Net.MacAddress.Conversions.{text_round_trip}

-- `ip: <address>, mac: <address>`
unfoldable pub to_string : (ℕ → Str) → (ℕ → Str) → Device → Str
to_string decimal hex d =
    (105 ∷ 112 ∷ 58 ∷ 32 ∷ [])
    ++ IPv4Address.to_string decimal d.ip_address
    ++ (44 ∷ 32 ∷ 109 ∷ 97 ∷ 99 ∷ 58 ∷ 32 ∷ [])
    ++ MacAddress.to_string hex d.mac_address

-- The values of the JSON library that are written; an enumerator is its number.
pub data Json : Type 0 where
  null : Json
  text : Str → Json
  number : ℤ → Json
  enumerator : ℕ → Json
  enumerators : List ℕ → Json

abbrev pub ip_key : Str
ip_key = 105 ∷ 112 ∷ 65 ∷ 100 ∷ 100 ∷ 114 ∷ 101 ∷ 115 ∷ 115 ∷ []

abbrev pub mac_key : Str
mac_key = 109 ∷ 97 ∷ 99 ∷ 65 ∷ 100 ∷ 100 ∷ 114 ∷ 101 ∷ 115 ∷ 115 ∷ []

abbrev pub time_key : Str
time_key = 114 ∷ 101 ∷ 115 ∷ 112 ∷ 111 ∷ 110 ∷ 115 ∷ 101 ∷ 84 ∷ 105 ∷ 109 ∷ 101 ∷ []

abbrev pub last_key : Str
last_key =
    108 ∷ 97 ∷ 115 ∷ 116 ∷ 85 ∷ 115 ∷ 101 ∷ 100 ∷ 83 ∷ 110 ∷ 109 ∷ 112 ∷ 86 ∷ 101 ∷ 114 ∷ 115 ∷ 105
    ∷ 111 ∷ 110 ∷ []

abbrev pub known_key : Str
known_key =
    107 ∷ 110 ∷ 111 ∷ 119 ∷ 110 ∷ 83 ∷ 110 ∷ 109 ∷ 112 ∷ 86 ∷ 101 ∷ 114 ∷ 115 ∷ 105 ∷ 111 ∷ 110
    ∷ 115 ∷ []

abbrev pub version_json : Option SnmpVersion → Json
version_json none = null
version_json (some v) = enumerator (version_number v)

-- The members are set in the order of the code; the JSON object is the argument, by default empty.
unfoldable pub serialize : (ℕ → Str) → (ℕ → Str) → Device → Map Str Json → Map Str Json
serialize decimal hex d json =
    insert known_key (enumerators (map version_number d.known_snmp_versions)) (
      insert last_key (version_json d.last_used_snmp_version) (
        insert time_key (number d.response_time) (
          insert mac_key (text (MacAddress.to_string hex d.mac_address))
            (insert ip_key (text (IPv4Address.to_string decimal d.ip_address)) json))))

module _ (decimal hex : ℕ → Str) (d : Device) (json : Map Str Json) where
  lookup-ip :
      lookup ip_key (serialize decimal hex d json)
      ≡ some (text (IPv4Address.to_string decimal d.ip_address))
  unfolding serialize cpp_grcp_testground.Prelude.Strings.str_less
  lookup-ip = rw (lookup-insert, lookup-insert, lookup-insert, lookup-insert, lookup-insert) refl

  lookup-mac :
      lookup mac_key (serialize decimal hex d json)
      ≡ some (text (MacAddress.to_string hex d.mac_address))
  unfolding serialize cpp_grcp_testground.Prelude.Strings.str_less
  lookup-mac = rw (lookup-insert, lookup-insert, lookup-insert, lookup-insert) refl

  lookup-time : lookup time_key (serialize decimal hex d json) ≡ some (number d.response_time)
  unfolding serialize cpp_grcp_testground.Prelude.Strings.str_less
  lookup-time = rw (lookup-insert, lookup-insert, lookup-insert) refl

  lookup-last :
      lookup last_key (serialize decimal hex d json) ≡ some (version_json d.last_used_snmp_version)
  unfolding serialize cpp_grcp_testground.Prelude.Strings.str_less
  lookup-last = rw (lookup-insert, lookup-insert) refl

  lookup-known :
      lookup known_key (serialize decimal hex d json)
      ≡ some (enumerators (map version_number d.known_snmp_versions))
  unfolding serialize cpp_grcp_testground.Prelude.Strings.str_less
  lookup-known = rw lookup-insert refl

version_number-injective : (v w : SnmpVersion) → version_number v ≡ version_number w → v ≡ w
version_number-injective v1 v1 e = refl
version_number-injective v2 v2 e = refl
version_number-injective unused_v2 unused_v2 e = refl
version_number-injective v3 v3 e = refl
version_number-injective _ _ e = ground arith

versions-injective :
    (vs ws : List SnmpVersion) → map version_number vs ≡ map version_number ws → vs ≡ ws
versions-injective [] [] e = refl
versions-injective [] (w ∷ ws) e = cc
versions-injective (v ∷ vs) [] e = cc
versions-injective (v ∷ vs) (w ∷ ws) e =
    rw
      (
        version_number-injective v w (head-eq_of_cons-eq e),
        versions-injective vs ws (tail-eq_of_cons-eq e),
      )
      refl

version_json-injective :
    (v w : Option SnmpVersion) → some (version_json v) ≡ some (version_json w) → v ≡ w
version_json-injective none none e = refl
version_json-injective none (some w) e = cc
version_json-injective (some v) none e = cc
version_json-injective (some v) (some w) e = ap some (version_number-injective v w (cc))

text-injective : (a b : Str) → some (text a) ≡ some (text b) → a ≡ b
text-injective a b e = cc

-- Two texts of one address parse alike.
mac_to_string-injective :
    (hex : ℕ → Str) (a b : MacAddress)
    → ((n : ℕ) → IsByte n → hex n ≡ upper_hex n)
    → MacAddress.IsValid a
    → MacAddress.IsValid b
    → MacAddress.to_string hex a ≡ MacAddress.to_string hex b
    → a ≡ b
mac_to_string-injective hex a b writes va vb e = ok-injective a b (
    sym (text_round_trip hex a writes va)
    ∙ ap MacAddress.parse_text e
    ∙ text_round_trip hex b writes vb)
  where
    ok-injective : (x y : MacAddress) → ◌≡◌ {A = Result MacAddress ErrorType} (ok x) (ok y) → x ≡ y
    ok-injective x y h = cc

-- The JSON of a device loses nothing: with addresses rendered so that different bytes are written
-- differently, two devices with valid addresses that are written alike into one object are equal in
-- every member.
pub serialize-injective :
    (decimal hex : ℕ → Str) (d e : Device) (json : Map Str Json)
    → Rendering b'.' decimal
    → ((n : ℕ) → IsByte n → hex n ≡ upper_hex n)
    → IPv4Address.IsValid d.ip_address
    → IPv4Address.IsValid e.ip_address
    → MacAddress.IsValid d.mac_address
    → MacAddress.IsValid e.mac_address
    → serialize decimal hex d json ≡ serialize decimal hex e json
    → (d.ip_address ≡ e.ip_address)
      × ((d.mac_address ≡ e.mac_address)
          × ((d.response_time ≡ e.response_time)
              × ((d.last_used_snmp_version ≡ e.last_used_snmp_version)
                  × (d.known_snmp_versions ≡ e.known_snmp_versions))))
serialize-injective decimal hex d e json renders writes vd ve md me same = (
  to_string-injective decimal d.ip_address e.ip_address renders vd ve (
      text-injective _ _
        (written ip_key (lookup-ip decimal hex d json) (lookup-ip decimal hex e json))),
  (
    mac_to_string-injective hex d.mac_address e.mac_address writes md me (
        text-injective _ _
          (written mac_key (lookup-mac decimal hex d json) (lookup-mac decimal hex e json))),
    (
      number-injective _ _
          (written time_key (lookup-time decimal hex d json) (lookup-time decimal hex e json)),
      (
        version_json-injective _ _
            (written last_key (lookup-last decimal hex d json) (lookup-last decimal hex e json)),
        versions-injective _ _ (
            enumerators-injective _ _ (
              written known_key (lookup-known decimal hex d json)
                (lookup-known decimal hex e json))),
      ),
    ),
  ),
)
  where
    number-injective : (a b : ℤ) → some (number a) ≡ some (number b) → a ≡ b
    number-injective a b h = cc

    enumerators-injective : (a b : List ℕ) → some (enumerators a) ≡ some (enumerators b) → a ≡ b
    enumerators-injective a b h = cc

    written :
        (key : Str) {a b : Json}
        → lookup key (serialize decimal hex d json) ≡ some a
        → lookup key (serialize decimal hex e json) ≡ some b
        → some a ≡ some b
    written key p q = sym p ∙ ap (lookup key) same ∙ q
