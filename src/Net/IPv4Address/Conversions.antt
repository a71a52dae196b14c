-- ===== src/Net/IPv4Address/Conversions.antt =====
-- The conversions of an address: to a number, to bytes, to text, and back.
use mathlib.Core.Path.{subst}
use mathlib.Core.List.{reverse-reverse}
use cpp_grcp_testground.Prelude.{
  ℕ, ◌^◌, ◌<◌, ◌≡◌, ◌≢◌, refl, ap, sym, ◌∙◌, List, [], ◌∷◌, reverse, arith, Str, length, ok, err,
}
use cpp_grcp_testground.Prelude.ErrorType.{invalid_argument}
use cpp_grcp_testground.Util.ByteOrder.{
  Value, little_endian, big_endian, network_order, in_order, in_order_back,
}
use cpp_grcp_testground.Net.Bytes.{byte, IsArray, le_value-injective, le_value-lt, reverse-IsArray}
use cpp_grcp_testground.Net.Text.{Rendering, join-injective}
use cpp_grcp_testground.Net.IPv4Address.{
  IPv4Address, IsValid, Parsed, parse_array, parse_list, parse_span, parse_number, to_bytes, to_int,
  to_string,
}

abbrev pub of_number : ℕ → IPv4Address
of_number n = record { ip_as_bytes = byte 0 n ∷ byte 1 n ∷ byte 2 n ∷ byte 3 n ∷ [] }

pub of_number-IsValid : (n : ℕ) → IsValid (of_number n)
of_number-IsValid n = (refl, omega arith)

pub to_int-of_number : (n : ℕ) → n < 2 ^ 32 → to_int (of_number n) ≡ n
unfolding to_int
to_int-of_number n h = omega arith

pub to_int-lt : (ip : IPv4Address) → IsValid ip → to_int ip < 2 ^ 32
unfolding to_int
to_int-lt ip v = subst (λ n. to_int ip < 256 ^ n) v.0 (le_value-lt ip.ip_as_bytes v.1)

pub to_int-injective : (a b : IPv4Address) → IsValid a → IsValid b → to_int a ≡ to_int b → a ≡ b
unfolding to_int
to_int-injective a b va vb e =
    let same = le_value-injective a.ip_as_bytes b.ip_as_bytes va.1 vb.1 (va.0 ∙ sym vb.0) e in
    λ i. record { ip_as_bytes = same i }

pub of_number-to_int : (ip : IPv4Address) → IsValid ip → of_number (to_int ip) ≡ ip
of_number-to_int ip v =
    to_int-injective (of_number (to_int ip)) ip (of_number-IsValid (to_int ip)) v
      (to_int-of_number (to_int ip) (to_int-lt ip v))

-- Parsing any 32-bit number gives a valid address whose number it is, and parsing the number of a
-- valid address gives that address.
pub number_round_trip :
    (n : ℕ) (ip : IPv4Address)
    → n < 2 ^ 32
    → IsValid ip
    → (addr : IPv4Address) × (parse_number n ≡ ok addr)
      × IsValid addr
      × (to_int addr ≡ n)
      × (parse_number (to_int ip) ≡ ok ip)
unfolding parse_number
number_round_trip n ip h v =
    (of_number n, refl, of_number-IsValid n, to_int-of_number n h, ap ok (of_number-to_int ip v))

in_order-IsArray :
    (n : ℕ) (a b : Value) (bytes : List ℕ) → IsArray n bytes → IsArray n (in_order a b bytes)
in_order-IsArray n little_endian little_endian bytes h = h
in_order-IsArray n little_endian big_endian bytes h = reverse-IsArray n bytes h
in_order-IsArray n big_endian little_endian bytes h = reverse-IsArray n bytes h
in_order-IsArray n big_endian big_endian bytes h = h

abbrev record_of : List ℕ → Parsed
record_of bytes = ok (record { ip_as_bytes = bytes })

-- The bytes of an address in any order parse, as an array, as a list and as a span, to that
-- address; and four bytes in any order parse to a valid address whose bytes in that order they are.
pub bytes_round_trip :
    (order : Value) (ip : IPv4Address) (bytes : List ℕ)
    → IsValid ip
    → IsArray 4 bytes
    → (parse_array (to_bytes ip order) order ≡ ok ip)
      × (parse_list (to_bytes ip order) order ≡ ok ip)
      × (parse_span (to_bytes ip order) order ≡ ok ip)
      × ((addr : IPv4Address) × (parse_list bytes order ≡ ok addr)
          × IsValid addr
          × (to_bytes addr order ≡ bytes))
unfolding parse_array parse_list parse_span to_bytes
bytes_round_trip order ip bytes v h =
    let back = in_order_back network_order order ip.ip_as_bytes in
    let four = (in_order-IsArray 4 network_order order ip.ip_as_bytes v).0 in
    let parsed = ap (λ (x : List ℕ). record_of x) back in
    (
      parsed,
      rw four parsed,
      rw four parsed,
      (
        record { ip_as_bytes = in_order order network_order bytes },
        rw h.0,
        in_order-IsArray 4 order network_order bytes h,
        in_order_back order network_order bytes,
      ),
    )

-- A list or a span that does not hold four bytes is refused as an invalid argument.
pub parse_wrong_size :
    (bytes : List ℕ) (order : Value)
    → length bytes ≢ 4
    → (parse_list bytes order ≡ err invalid_argument)
      × (parse_span bytes order ≡ err invalid_argument)
unfolding parse_list parse_span
parse_wrong_size bytes order h = ground arith

-- Two valid addresses that are written alike are the same address.
pub to_string-injective :
    (decimal : ℕ → Str) (a b : IPv4Address)
    → Rendering b'.' decimal
    → IsValid a
    → IsValid b
    → to_string decimal a ≡ to_string decimal b
    → a ≡ b
unfolding to_string
to_string-injective decimal a b f va vb e =
    let ra = reverse-IsArray 4 a.ip_as_bytes va in
    let rb = reverse-IsArray 4 b.ip_as_bytes vb in
    let same =
      join-injective f (reverse a.ip_as_bytes) (reverse b.ip_as_bytes) ra.1 rb.1 (ra.0 ∙ sym rb.0)
        e in
    let bytes =
      sym (reverse-reverse a.ip_as_bytes) ∙ ap reverse same ∙ reverse-reverse b.ip_as_bytes in
    λ i. record { ip_as_bytes = bytes i }
