-- ===== src/Discovery/App/Demonstration.antt =====
-- app/main.cpp: what the program logs before it discovers anything, which shows what the parts of the
-- library do.
pub mod Lines
use cpp_grcp_testground.Prelude.{
  ℕ, suc, ◌+◌, ◌≡◌, refl, Option, none, some, List, [], ◌∷◌, ◌++◌, map, Str, ◌==◌, value_or, ok,
  err, ErrorType, invalid_argument, ◌⊎◌, inl, inr, ap, ◌∙◌,
}
use cpp_grcp_testground.Prelude.Strings.{codes}
use cpp_grcp_testground.Util.ByteOrder.{host_order, network_order}
use cpp_grcp_testground.Util.Enum.{EnumLibrary, entries}
use cpp_grcp_testground.Util.Enum
use cpp_grcp_testground.Util.Logger.Debugging.{comma_join}
use cpp_grcp_testground.Util.Sequence.{
  Steps, Sequence, visit, to, range_of, range_of_end, range_of_begin, inclusive_bound,
  exclusive_bound, range_indexed,
}
use cpp_grcp_testground.Models.Time.{Milliseconds}
use cpp_grcp_testground.Models.Device.{Device, new_device}
use cpp_grcp_testground.Net.IPv4Address
use cpp_grcp_testground.Net.IPv4Address.{IPv4Address}
use cpp_grcp_testground.Net.IPv4Address.Order.{address_steps}
use cpp_grcp_testground.Net.MacAddress
use cpp_grcp_testground.Net.MacAddress.{MacAddress}
use cpp_grcp_testground.Snmp.Values.{Library}
use cpp_grcp_testground.Snmp.Oids.{OidType, system_tree}
use cpp_grcp_testground.Discovery.App.SetUp.{and_then}

-- `value_or(IPv4Address::zero())` and `value_or(MacAddress::zero())`.
abbrev pub or_zero : IPv4Address.Parsed → IPv4Address
or_zero parsed = value_or parsed IPv4Address.zero_address

abbrev pub mac_or_zero : MacAddress.Parsed → MacAddress
mac_or_zero parsed = value_or parsed MacAddress.zero_address

-- What `++` and `==` are on the numbers of the ranges, which stay small.
abbrev pub int_steps : Steps ℕ
int_steps = record { next = λ n. n + 1; equal = λ a b. a == b }

-- How numbers are written, in decimal digits and as two hexadecimal digits, and the network library's
-- parser of addresses.
pub record Formats : Type 0 where
  pub decimal : ℕ → Str
  pub hex : ℕ → Str
  pub make_address_v4 : Str → Option (List ℕ)

module _ (f : Formats) where
  abbrev pub address_text : IPv4Address → Str
  address_text ip = IPv4Address.to_string f.decimal ip

  abbrev pub mac_text : MacAddress → Str
  mac_text mac = MacAddress.to_string f.hex mac

  abbrev pub parsed_address : Str → IPv4Address.Parsed
  parsed_address text = IPv4Address.parse_text f.make_address_v4 text

  abbrev pub demo_ip : IPv4Address
  demo_ip = or_zero (parsed_address (codes "192.168.17.69"))

  -- The device that is made for show.
  unfoldable pub demo_device : Milliseconds → Device
  demo_device memory = new_device memory demo_ip MacAddress.broadcast

  -- The identifiers of the system group, and the types of values.
  unfoldable pub oid_lines : Library → EnumLibrary OidType → List Str
  oid_lines lib types =
      comma_join (map lib.printable (system_tree lib))
      ∷ map (λ (entry : OidType × Str). Enum.to_string types entry.0 ++ (32 ∷ entry.1))
          (entries types)

  abbrev pub numbered_ip : IPv4Address
  numbered_ip = or_zero (IPv4Address.parse_number 3232239904)

  unfoldable pub address_lines : List Str
  address_lines =
      address_text demo_ip
      ∷ address_text (or_zero (IPv4Address.parse_list (192 ∷ 168 ∷ 66 ∷ 23 ∷ []) host_order))
      ∷ address_text (or_zero (IPv4Address.parse_array (192 ∷ 168 ∷ 23 ∷ 63 ∷ []) host_order))
      ∷ address_text numbered_ip
      ∷ f.decimal (IPv4Address.to_int numbered_ip)
      ∷ comma_join (map f.decimal (IPv4Address.to_bytes numbered_ip host_order))
      ∷ comma_join (map f.decimal (IPv4Address.to_bytes numbered_ip network_order))
      ∷ []

  abbrev mac_line : Str → Str
  mac_line text = mac_text (mac_or_zero (MacAddress.parse_text text))

  unfoldable pub mac_lines : List Str
  mac_lines =
      mac_line (codes "f3 08:7d:2f:5c:e0")
      ∷ mac_line (codes "f3 08 7d 2f 5c e0")
      ∷ mac_text (mac_or_zero (MacAddress.parse_number 267217785543904))
      ∷ mac_line (codes "14:D7:D8:C8:A7:77")
      ∷ mac_line (codes "14:D7:D8:C8:A7:121")
      ∷ mac_line (codes "14:D7:D8:C8:A7:77:33")
      ∷ []

  -- The arguments of the command line, as the library docopt gives them, with their values written.
  unfoldable pub argument_lines : List (Str × Str) → List Str
  argument_lines args = map (λ (entry : Str × Str). entry.0 ++ (codes " - " ++ entry.1)) args

  unfoldable pub indexed_lines : List Str
  indexed_lines =
      map
        (λ (entry : ℕ × ℕ).
          codes "value = " ++ f.decimal entry.1 ++ codes ", index = " ++ f.decimal entry.0)
        (range_indexed (3 ∷ 5 ∷ 2 ∷ 18 ∷ 328 ∷ 10 ∷ []))

  -- The loop over a range of addresses whose bounds are `*` of what was parsed. `none` is an error that
  -- was dereferenced, or a range of as many values as the fuel or more.
  abbrev pub between : ℕ → IPv4Address.Parsed → IPv4Address.Parsed → Option (List Str)
  between fuel (err e) end = none
  between fuel (ok begin) (err e) = none
  between fuel (ok begin) (ok end) =
      and_then (to address_steps fuel (range_of address_steps begin end))
        (λ ips. some (map address_text ips))

  unfoldable pub address_range : ℕ → Option (List Str)
  address_range fuel =
      between fuel (parsed_address (codes "192.168.178.1")) (parsed_address (codes "192.168.178.5"))

  abbrev int_line : ℕ → Sequence ℕ → Option Str
  int_line fuel range =
      and_then (to int_steps fuel range) (λ numbers. some (comma_join (map f.decimal numbers)))

  unfoldable pub int_ranges : ℕ → Option (List Str)
  int_ranges fuel = and_then (int_line fuel (range_of int_steps 1 5)) (λ plain.
      and_then (int_line fuel (range_of_end int_steps inclusive_bound 1 5)) (λ inclusive.
        and_then (int_line fuel (range_of_begin int_steps exclusive_bound 1 5))
          (λ exclusive. some (plain ∷ inclusive ∷ exclusive ∷ []))))

  -- All that is logged, in order, given the lines of the ranges.
  abbrev pub demonstrate_with :
      Library
      → EnumLibrary OidType
      → List (Str × Str)
      → Option (List Str)
      → Option (List Str)
      → Option (List Str)
  demonstrate_with lib types args addresses numbers = and_then addresses (λ range.
      and_then numbers (λ ranges. some (
        oid_lines lib types
        ++ (address_lines
            ++ (mac_lines ++ (argument_lines args ++ (indexed_lines ++ (range ++ ranges))))))))

  unfoldable pub demonstrate :
      ℕ → Library → EnumLibrary OidType → List (Str × Str) → Option (List Str)
  demonstrate fuel lib types args =
      demonstrate_with lib types args (address_range fuel) (int_ranges fuel)
