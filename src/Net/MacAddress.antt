-- ===== src/Net/MacAddress.antt =====
-- core/core/net/MacAddress.h and MacAddress.cpp.
--
-- The six bytes are stored least significant first. `toInt` copies them into an uninitialised
-- 64-bit variable: what its two upper bytes held is the argument `junk` of `to_int`.
pub mod Order
pub mod Conversions
use cpp_grcp_testground.Prelude.{
  ℕ, zero, suc, ◌+◌, ◌*◌, ◌%◌, ◌^◌, Bool, not, ◌&&◌, Option, none, some, List, [], ◌∷◌, map,
  reverse, ltb, ◌==◌, if◌then◌else◌, Str, length, ErrorType, Result, ok, err, value_or,
}
use cpp_grcp_testground.Prelude.ErrorType.{invalid_argument}
use cpp_grcp_testground.Util.ByteOrder.{Value, host_order, network_order, in_order}
use cpp_grcp_testground.Net.Bytes.{byte, le_value, bytes_equal, IsArray}
use cpp_grcp_testground.Net.Text.{join}
use cpp_grcp_testground.Net.Scan.{c_string, scan_bytes}

pub record MacAddress : Type 0 where
  pub mac_as_bytes : List ℕ

abbrev pub Parsed : Type 0
Parsed = Result MacAddress ErrorType

-- The default constructor.
abbrev pub default_address : MacAddress
default_address = record { mac_as_bytes = 0 ∷ 0 ∷ 0 ∷ 0 ∷ 0 ∷ 0 ∷ [] }

-- The constructor from the packet library's address, given its six bytes.
unfoldable pub from_pcpp : List ℕ → MacAddress
from_pcpp bytes = record { mac_as_bytes = in_order host_order network_order bytes }

unfoldable pub parse_array : List ℕ → Value → Parsed
parse_array bytes order = ok (record { mac_as_bytes = in_order order network_order bytes })

unfoldable pub parse_list : List ℕ → Value → Parsed
parse_list bytes order =
    if not (length bytes == 6)
    then err invalid_argument
    else ok (record { mac_as_bytes = in_order order network_order bytes })

unfoldable pub parse_span : List ℕ → Value → Parsed
parse_span bytes order =
    if not (length bytes == 6)
    then err invalid_argument
    else ok (record { mac_as_bytes = in_order order network_order bytes })

-- What `parse` makes of the six bytes that `sscanf` stored and the text that it left.
abbrev pub parsed_text : Option (List ℕ × Str) → Parsed
parsed_text none = err invalid_argument
parsed_text (some (bytes, [])) =
    ok (record { mac_as_bytes = in_order host_order network_order bytes })
parsed_text (some (bytes, c ∷ rest)) = err invalid_argument

-- `parse(std::string_view)`
unfoldable pub parse_text : Str → Parsed
parse_text mac = parsed_text (scan_bytes 5 (c_string mac))

-- `parse(std::uint64_t)`
unfoldable pub parse_number : ℕ → Parsed
parse_number number = ok (record {
  mac_as_bytes =
      byte 0 number
      ∷ byte 1 number
      ∷ byte 2 number
      ∷ byte 3 number
      ∷ byte 4 number
      ∷ byte 5 number
      ∷ [];
})

abbrev pub colons : Str → Str
colons pair = join b':' (pair ∷ pair ∷ pair ∷ pair ∷ pair ∷ pair ∷ [])

unfoldable pub broadcast : MacAddress
unfolding parse_text
broadcast = value_or (parse_text (colons (b'F' ∷ b'F' ∷ []))) default_address

unfoldable pub zero_address : MacAddress
unfolding parse_text
zero_address = value_or (parse_text (colons (b'0' ∷ b'0' ∷ []))) default_address

unfoldable pub to_bytes : MacAddress → Value → List ℕ
to_bytes mac order = in_order network_order order mac.mac_as_bytes

-- `toInt`
unfoldable pub to_int : ℕ → MacAddress → ℕ
to_int junk mac = le_value mac.mac_as_bytes + 2 ^ 48 * junk

-- `toString`; `hex` writes one byte by `{:02X}`.
unfoldable pub to_string : (ℕ → Str) → MacAddress → Str
to_string hex mac = join b':' (map hex (reverse mac.mac_as_bytes))

unfoldable pub equal : MacAddress → MacAddress → Bool
equal a b = bytes_equal a.mac_as_bytes b.mac_as_bytes

-- `operator<`: each side's `toInt` has an uninitialised variable of its own.
unfoldable pub less : ℕ → ℕ → MacAddress → MacAddress → Bool
less junk_a junk_b a b = ltb (to_int junk_a a) (to_int junk_b b)

abbrev pub greater : ℕ → ℕ → MacAddress → MacAddress → Bool
greater junk_a junk_b a b = less junk_b junk_a b a

abbrev pub not_equal : MacAddress → MacAddress → Bool
not_equal a b = not (equal a b)

abbrev pub less_equal : ℕ → ℕ → MacAddress → MacAddress → Bool
less_equal junk_a junk_b a b = not (less junk_b junk_a b a)

abbrev pub greater_equal : ℕ → ℕ → MacAddress → MacAddress → Bool
greater_equal junk_a junk_b a b = not (less junk_a junk_b a b)

-- The comparisons with a text.
abbrev pub equal_text : (ℕ → Str) → MacAddress → Str → Bool
equal_text hex a text = bytes_equal (to_string hex a) text

abbrev pub not_equal_text : (ℕ → Str) → MacAddress → Str → Bool
not_equal_text hex a text = not (equal_text hex a text)

-- `isBetween` calls itself with the bounds swapped; the fuel counts its calls, and every `toInt`
-- is taken to find the same two bytes.
unfoldable pub is_between : ℕ → ℕ → MacAddress → MacAddress → MacAddress → Option Bool
is_between junk zero mac begin end = none
is_between junk (suc calls) mac begin end =
    let swapped = is_between junk calls mac end begin in
    if greater junk junk begin end
    then swapped
    else some (greater junk junk mac begin && less junk junk mac end)

-- `isBroadcast` does not read its argument.
unfoldable pub is_broadcast : MacAddress → MacAddress → Bool
is_broadcast this mac = equal this broadcast

-- `operator++(int)`
unfoldable pub post_increment : ℕ → MacAddress → MacAddress × MacAddress
post_increment junk mac = (mac, value_or (parse_number ((to_int junk mac + 1) % 2 ^ 64)) mac)

-- Six bytes are held.
abbrev pub IsValid : MacAddress → Type 0
IsValid mac = IsArray 6 mac.mac_as_bytes
