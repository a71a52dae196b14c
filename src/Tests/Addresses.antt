-- ===== src/Tests/Addresses.antt =====
-- Addresses and their numbers, bytes and texts.
use cpp_grcp_testground.Prelude.{◌≡◌, refl, ok, arith}
use cpp_grcp_testground.Net.Scan.Laws.{upper_hex}
use cpp_grcp_testground.Net.IPv4Address.{parse_number, to_int}
use cpp_grcp_testground.Net.IPv4Address.Conversions.{number_round_trip}
use cpp_grcp_testground.Net.MacAddress
use cpp_grcp_testground.Net.MacAddress.Conversions.{text_round_trip}
use cpp_grcp_testground.Tests.Data.{host, host-IsValid, mac, mac-IsValid}

number_round_trip_example : parse_number (to_int host) ≡ ok host
number_round_trip_example = (number_round_trip 77 host (omega arith) host-IsValid).4

text_round_trip_example : MacAddress.parse_text (MacAddress.to_string upper_hex mac) ≡ ok mac
text_round_trip_example = text_round_trip upper_hex mac (λ b h. refl) mac-IsValid
