-- ===== src/Net/IPv4Address.antt =====
-- core/core/net/IPv4Address.h and IPv4Address.cpp.
--
-- The four bytes are stored least significant first: the address a.b.c.d is held as d, c, b, a.
pub mod Order
pub mod Conversions
use cpp_grcp_testground.Prelude.{
  ℕ, zero, suc, ◌+◌, ◌%◌, ◌^◌, Bool, not, ◌&&◌, Option, none, some, List, [], ◌∷◌, map, reverse,
  ltb, ◌==◌, if◌then◌else◌, Str, length, ErrorType, Result, ok, err, value_or,
}
use cpp_grcp_testground.Prelude.ErrorType.{invalid_argument}
use cpp_grcp_testground.Util.ByteOrder.{Value, host_order, network_order, in_order}
use cpp_grcp_testground.Net.Bytes.{byte, le_value, bytes_equal, IsArray}
use cpp_grcp_testground.Net.Text.{join}

pub record IPv4Address : Type 0 where
  pub ip_as_bytes : List ℕ

abbrev pub Parsed : Type 0
Parsed = Result IPv4Address ErrorType

-- The default constructor.
abbrev pub default_address : IPv4Address
default_address = record { ip_as_bytes = 0 ∷ 0 ∷ 0 ∷ 0 ∷ [] }

-- The constructor from the packet library's address, given its four bytes.
unfoldable pub from_pcpp : List ℕ → IPv4Address
from_pcpp bytes = record { ip_as_bytes = in_order host_order network_order bytes }

-- `parse(std::array<std::uint8_t, 4>, ByteOrder::Value)`
unfoldable pub parse_array : List ℕ → Value → Parsed
parse_array bytes order = ok (record { ip_as_bytes = in_order order network_order bytes })

-- `parse` of an initializer list, and of a span: both test the size.
unfoldable pub parse_list : List ℕ → Value → Parsed
parse_list bytes order =
    if not (length bytes == 4)
    then err invalid_argument
    else ok (record { ip_as_bytes = in_order order network_order bytes })

unfoldable pub parse_span : List ℕ → Value → Parsed
parse_span bytes order =
    if not (length bytes == 4)
    then err invalid_argument
    else ok (record { ip_as_bytes = in_order order network_order bytes })

-- `parse(std::string_view)`; `make_address_v4` is the network library's parser, which gives the
-- bytes a, b, c, d, or none with an error code.
unfoldable pub parse_text : (Str → Option (List ℕ)) → Str → Parsed
parse_text make_address_v4 ip = elim (make_address_v4 ip) [
  | none ↦ err invalid_argument
  | some bytes ↦ ok (record { ip_as_bytes = in_order host_order network_order bytes })
]

-- `parse(std::uint32_t)`
unfoldable pub parse_number : ℕ → Parsed
parse_number number =
    ok (record { ip_as_bytes = byte 0 number ∷ byte 1 number ∷ byte 2 number ∷ byte 3 number ∷ [] })

unfoldable pub zero_address : IPv4Address
unfolding parse_number
zero_address = value_or (parse_number 0) default_address

unfoldable pub broadcast : IPv4Address
unfolding parse_list
broadcast = value_or (parse_list (255 ∷ 255 ∷ 255 ∷ 255 ∷ []) host_order) default_address

unfoldable pub loopback : IPv4Address
unfolding parse_list
loopback = value_or (parse_list (127 ∷ 0 ∷ 0 ∷ 1 ∷ []) host_order) default_address

unfoldable pub localhost : IPv4Address
unfolding loopback
localhost = loopback

unfoldable pub to_bytes : IPv4Address → Value → List ℕ
to_bytes ip order = in_order network_order order ip.ip_as_bytes

-- `toInt`: the `memcpy` of the four bytes.
unfoldable pub to_int : IPv4Address → ℕ
to_int ip = le_value ip.ip_as_bytes

-- `toString`; `decimal` writes one byte.
unfoldable pub to_string : (ℕ → Str) → IPv4Address → Str
to_string decimal ip = join b'.' (map decimal (reverse ip.ip_as_bytes))

-- The comparison operators.
unfoldable pub equal : IPv4Address → IPv4Address → Bool
equal a b = bytes_equal a.ip_as_bytes b.ip_as_bytes

unfoldable pub less : IPv4Address → IPv4Address → Bool
unfolding to_int
less a b = ltb (to_int a) (to_int b)

abbrev pub greater : IPv4Address → IPv4Address → Bool
greater a b = less b a

abbrev pub less_equal : IPv4Address → IPv4Address → Bool
less_equal a b = not (less b a)

abbrev pub greater_equal : IPv4Address → IPv4Address → Bool
greater_equal a b = not (less a b)

abbrev pub not_equal : IPv4Address → IPv4Address → Bool
not_equal a b = not (equal a b)

-- The comparisons with a text.
abbrev pub equal_text : (ℕ → Str) → IPv4Address → Str → Bool
equal_text decimal a text = bytes_equal (to_string decimal a) text

abbrev pub not_equal_text : (ℕ → Str) → IPv4Address → Str → Bool
not_equal_text decimal a text = not (equal_text decimal a text)

-- `isBetween` calls itself with the bounds swapped; the fuel counts its calls.
unfoldable pub is_between : ℕ → IPv4Address → IPv4Address → IPv4Address → Option Bool
is_between zero ip begin end = none
is_between (suc calls) ip begin end =
    let swapped = is_between calls ip end begin in
    if greater begin end then swapped else some (greater ip begin && less ip end)

unfoldable pub is_zero : IPv4Address → Bool
unfolding equal zero_address
is_zero ip = equal ip zero_address

unfoldable pub is_broadcast : IPv4Address → Bool
unfolding equal broadcast
is_broadcast ip = equal ip broadcast

unfoldable pub is_loopback : IPv4Address → Bool
unfolding equal loopback
is_loopback ip = equal ip loopback

unfoldable pub is_localhost : IPv4Address → Bool
unfolding is_loopback
is_localhost ip = is_loopback ip

-- `operator++(int)`: the value before, and the address after; `std::uint32_t` wraps.
unfoldable pub post_increment : IPv4Address → IPv4Address × IPv4Address
unfolding parse_number to_int
post_increment ip = (ip, value_or (parse_number ((to_int ip + 1) % 2 ^ 32)) ip)

-- Four bytes are held.
abbrev pub IsValid : IPv4Address → Type 0
IsValid ip = IsArray 4 ip.ip_as_bytes
