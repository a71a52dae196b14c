-- ===== src/Net/MacAddress/Conversions.antt =====
-- The conversions of a hardware address: to a number, to bytes, to text, and back.
use mathlib.Core.Path.{subst}
use mathlib.Core.List.{reverse-reverse}
use cpp_grcp_testground.Prelude.{
  ℕ, ◌%◌, ◌^◌, ◌<◌, ◌≡◌, refl, ap, sym, ◌∙◌, List, [], ◌∷◌, map, reverse, arith, Str, length,
  length-reverse, ok, All,
}
use cpp_grcp_testground.Util.ByteOrder.{
  Value, little_endian, big_endian, network_order, in_order, in_order_back,
}
use cpp_grcp_testground.Net.Bytes.{
  byte, le_value, IsByte, le_value-injective, le_value-lt, reverse-IsArray,
}
use cpp_grcp_testground.Net.Text.{join}
use cpp_grcp_testground.Net.Scan.Laws.{upper_hex, scan_bytes-join, c_string_whole, join-no_nul}
use cpp_grcp_testground.Net.MacAddress.{
  MacAddress, IsValid, Parsed, parse_array, parse_list, parse_span, parse_text, parse_number,
  to_bytes, to_int, to_string,
}

abbrev of_number : ℕ → MacAddress
of_number n = record {
  mac_as_bytes = byte 0 n ∷ byte 1 n ∷ byte 2 n ∷ byte 3 n ∷ byte 4 n ∷ byte 5 n ∷ [];
}

pub of_number-IsValid : (n : ℕ) → IsValid (of_number n)
of_number-IsValid n = (refl, omega arith)

value-of_number : (n : ℕ) → le_value (of_number n).mac_as_bytes ≡ n % 2 ^ 48
value-of_number n = omega arith

pub value-lt : (mac : MacAddress) → IsValid mac → le_value mac.mac_as_bytes < 2 ^ 48
value-lt mac v =
    subst (λ n. le_value mac.mac_as_bytes < 256 ^ n) v.0 (le_value-lt mac.mac_as_bytes v.1)

pub same-value :
    (a b : MacAddress)
    → IsValid a
    → IsValid b
    → le_value a.mac_as_bytes ≡ le_value b.mac_as_bytes
    → a ≡ b
same-value a b va vb e =
    let same = le_value-injective a.mac_as_bytes b.mac_as_bytes va.1 vb.1 (va.0 ∙ sym vb.0) e in
    λ i. record { mac_as_bytes = same i }

-- Whatever the uninitialised bytes hold, parsing the number of a valid address gives that address;
-- parsing any number gives a valid address, whose lower six bytes are the number's.
pub mac_number_round_trip :
    (n junk : ℕ) (mac : MacAddress)
    → IsValid mac
    → (parse_number (to_int junk mac) ≡ ok mac)
      × ((addr : MacAddress) × (parse_number n ≡ ok addr)
          × IsValid addr
          × (to_int junk addr % 2 ^ 48 ≡ n % 2 ^ 48))
unfolding parse_number to_int
mac_number_round_trip n junk mac v = (
  ap ok (same-value (of_number (to_int junk mac)) mac (of_number-IsValid _) v lower),
  (of_number n, refl, of_number-IsValid n, omega arith),
)
  where
    lower : le_value (of_number (to_int junk mac)).mac_as_bytes ≡ le_value mac.mac_as_bytes
    lower = let bound = value-lt mac v in value-of_number (to_int junk mac) ∙ omega arith

map-writes :
    (hex : ℕ → Str) (xs : List ℕ)
    → ((b : ℕ) → IsByte b → hex b ≡ upper_hex b)
    → All IsByte xs
    → map hex xs ≡ map upper_hex xs
map-writes hex [] writes h = refl
map-writes hex (x ∷ xs) writes h = cc (writes x h.0, map-writes hex xs writes h.1)

abbrev held : List ℕ → Parsed
held bytes = ok (record { mac_as_bytes = bytes })

in_order-length : (a b : Value) (bytes : List ℕ) → length (in_order a b bytes) ≡ length bytes
in_order-length little_endian little_endian bytes = refl
in_order-length little_endian big_endian bytes = length-reverse bytes
in_order-length big_endian little_endian bytes = length-reverse bytes
in_order-length big_endian big_endian bytes = refl

-- With bytes written as two upper-case hexadecimal digits, the text of a valid address parses to
-- that address.
pub text_round_trip :
    (hex : ℕ → Str) (mac : MacAddress)
    → ((b : ℕ) → IsByte b → hex b ≡ upper_hex b)
    → IsValid mac
    → parse_text (to_string hex mac) ≡ ok mac
unfolding parse_text to_string
text_round_trip hex mac writes v =
    let digits = reverse mac.mac_as_bytes in
    let six = reverse-IsArray 6 mac.mac_as_bytes v in
    rw
      (
        map-writes hex digits writes six.1,
        c_string_whole (join b':' (map upper_hex digits)) (join-no_nul digits),
        scan_bytes-join 5 digits six.0 six.1,
      )
      (ap held (reverse-reverse mac.mac_as_bytes))

-- The bytes of an address in any order parse, as an array, as a list and as a span, to that
-- address.
pub mac_bytes_round_trip :
    (order : Value) (mac : MacAddress)
    → IsValid mac
    → (parse_array (to_bytes mac order) order ≡ ok mac)
      × (parse_list (to_bytes mac order) order ≡ ok mac)
      × (parse_span (to_bytes mac order) order ≡ ok mac)
unfolding parse_array parse_list parse_span to_bytes
mac_bytes_round_trip order mac v =
    let parsed = ap held (in_order_back network_order order mac.mac_as_bytes) in
    let six : length (in_order network_order order mac.mac_as_bytes) ≡ 6 =
      in_order-length network_order order mac.mac_as_bytes ∙ v.0 in
    (parsed, rw six parsed, rw six parsed)
