-- ===== src/Tests/Suites.antt =====
-- The repository's own test suites: tests/core/util/type/WrapAround.cpp and
-- tests/core/net/IPv4AddressTest.cpp. A test case is whether all that it requires holds.
use cpp_grcp_testground.Prelude.{
  ℕ, ◌+◌, ◌/◌, ◌%◌, ◌≡◌, refl, Bool, true, false, not, ◌&&◌, Option, none, some, List, [], ◌∷◌,
  ◌==◌, if◌then◌else◌, ltb, Str, ok, err,
}
use cpp_grcp_testground.Prelude.Strings.{codes}
use cpp_grcp_testground.Util.ByteOrder.{host_order, network_order}
use cpp_grcp_testground.Util.WrapAround.{
  Limits, initial, construct, increment, decrement, equal_number, not_equal_number, less_number,
  greater_number,
}
use cpp_grcp_testground.Net.Bytes.{bytes_equal}
use cpp_grcp_testground.Net.IPv4Address.{
  Parsed, parse_array, parse_list, parse_span, parse_text, parse_number, to_string,
}

-- `WrapAround` of an unsigned or a signed type of 8 or 16 bits, whose values are counted from the
-- smallest one, and of `std::uint8_t` from 16 to 32.
abbrev bits8 : Limits
bits8 = record { min_value = 0; max_value = 255; top = 255 }

abbrev signed8 : Limits
signed8 = record { min_value = 0; max_value = 255; top = 255 }

abbrev bits16 : Limits
bits16 = record { min_value = 0; max_value = 65535; top = 65535 }

abbrev signed16 : Limits
signed16 = record { min_value = 0; max_value = 65535; top = 65535 }

abbrev custom : Limits
custom = record { min_value = 16; max_value = 32; top = 255 }

unfoldable default_limits_case : Bool
default_limits_case =
    (bits8.min_value == 0 && bits8.max_value == bits8.top)
    && (signed8.min_value == 0 && signed8.max_value == signed8.top)

unfoldable default_value_case : Bool
unfolding initial
default_value_case =
    initial bits8 == 0 && (initial signed16 == 0 && (initial bits16 == 0 && initial custom == 16))

unfoldable wraps_to_min_case : Bool
unfolding construct increment
wraps_to_min_case = let num = construct custom 32 in num == 32 && increment custom num == 16

unfoldable wraps_to_max_case : Bool
unfolding construct decrement
wraps_to_max_case = let num = construct custom 16 in num == 16 && decrement custom num == 32

unfoldable increment_case : Bool
unfolding construct increment
increment_case = let num = construct bits8 1 in num == 1 && increment bits8 num == 2

unfoldable decrement_case : Bool
unfolding construct decrement
decrement_case = let num = construct bits8 1 in num == 1 && decrement bits8 num == 0

unfoldable equal_case : Bool
unfolding construct
equal_case = equal_number (construct bits8 1) 1

unfoldable not_equal_case : Bool
unfolding construct
not_equal_case = not_equal_number (construct bits8 1) 2

unfoldable greater_case : Bool
unfolding construct
greater_case = greater_number (construct bits8 1) 0

unfoldable less_case : Bool
unfolding construct
less_case = less_number (construct bits8 1) 2

wrap_around_suite :
    (default_limits_case ≡ true)
    × (default_value_case ≡ true)
    × (wraps_to_min_case ≡ true)
    × (wraps_to_max_case ≡ true)
    × (increment_case ≡ true)
    × (decrement_case ≡ true)
    × (equal_case ≡ true)
    × (not_equal_case ≡ true)
    × (greater_case ≡ true)
    × (less_case ≡ true)
unfolding default_limits_case default_value_case wraps_to_min_case wraps_to_max_case increment_case
    decrement_case equal_case not_equal_case greater_case less_case
wrap_around_suite = (refl, refl, refl, refl, refl, refl, refl, refl, refl, refl)

-- A byte in decimal without leading zeros.
abbrev shortest : ℕ → Str
shortest b =
    if ltb b 10
    then (48 + b) ∷ []
    else if ltb b 100
    then (48 + b / 10) ∷ (48 + b % 10) ∷ []
    else (48 + b / 100) ∷ (48 + b / 10 % 10) ∷ (48 + b % 10) ∷ []

abbrev has_value : Parsed → Bool
has_value (ok ip) = true
has_value (err e) = false

abbrev reads : Parsed → Bool
reads (ok ip) = bytes_equal (to_string shortest ip) (codes "192.168.13.5")
reads (err e) = false

-- The two cases of parsing; `make_address_v4` is the network library's parser.
unfoldable parsing_valid_case : (Str → Option (List ℕ)) → Bool
unfolding parse_text parse_array parse_list parse_number to_string
parsing_valid_case make_address_v4 =
    let host = 192 ∷ 168 ∷ 13 ∷ 5 ∷ [] in
    let network = 5 ∷ 13 ∷ 168 ∷ 192 ∷ [] in
    reads (parse_text make_address_v4 (codes "192.168.13.5"))
    && (reads (parse_array host host_order)
        && (reads (parse_array network network_order)
            && (reads (parse_list host host_order)
                && (reads (parse_list network network_order)
                    && reads (parse_number 3_232_238_853)))))

unfoldable parsing_invalid_case : (Str → Option (List ℕ)) → Bool
unfolding parse_text parse_span parse_list
parsing_invalid_case make_address_v4 =
    let short = 192 ∷ 168 ∷ 13 ∷ [] in
    let long = 5 ∷ 13 ∷ 168 ∷ 192 ∷ 0 ∷ [] in
    not (has_value (parse_text make_address_v4 (codes "300.168.13.5")))
    && (not (has_value (parse_span short host_order))
        && (not (has_value (parse_span long host_order))
            && (not (has_value (parse_list short host_order))
                && not (has_value (parse_list long host_order)))))

-- What the network library's parser answers for the two texts of the suite.
abbrev for_the_suite : Str → Option (List ℕ)
for_the_suite text =
    if bytes_equal text (codes "192.168.13.5") then some (192 ∷ 168 ∷ 13 ∷ 5 ∷ []) else none

ipv4_address_suite :
    (parsing_valid_case for_the_suite ≡ true) × (parsing_invalid_case for_the_suite ≡ true)
unfolding parsing_valid_case parsing_invalid_case parse_text parse_array parse_list parse_number
    parse_span to_string
ipv4_address_suite = (refl, refl)
