-- ===== src/Net/Scan.antt =====
-- `std::sscanf` as `MacAddress::parse` calls it: the directives `%hhx` and `%*1[-: ]`, with the
-- truncation to a byte that the C library of the target makes.
pub mod Laws
use cpp_grcp_testground.Prelude.{
  ℕ, zero, suc, ◌+◌, ◌-◌, ◌*◌, ◌/◌, ◌%◌, ◌^◌, Bool, true, false, ◌&&◌, ◌||◌, Option, none, some,
  List, [], ◌∷◌, ltb, leb, ◌==◌, if◌then◌else◌, Str,
}

-- The text before the first NUL byte.
unfoldable pub c_string : Str → Str
c_string [] = []
c_string (c ∷ s) = let rest = c ∷ c_string s in if c == 0 then [] else rest

unfoldable pub is_space : ℕ → Bool
is_space c = (leb 9 c && leb c 13) || c == 32

unfoldable pub hex_digit : ℕ → Option ℕ
hex_digit c =
    if leb b'0' c && leb c b'9'
    then some (c - 48)
    else if leb b'A' c && leb c b'F'
    then some (c - 55)
    else if leb b'a' c && leb c b'f'
    then some (c - 87)
    else none

unfoldable pub skip_spaces : Str → Str
skip_spaces [] = []
skip_spaces (c ∷ s) = let rest = skip_spaces s in if is_space c then rest else c ∷ s

-- A sign, and whether it is a minus.
unfoldable pub take_sign : Str → Bool × Str
take_sign [] = (false, [])
take_sign (c ∷ s) =
    if c == b'-' then (true, s) else if c == b'+' then (false, s) else (false, c ∷ s)

unfoldable pub skip_prefix : Str → Str
skip_prefix [] = []
skip_prefix (c ∷ []) = c ∷ []
skip_prefix (c ∷ d ∷ s) = if c == b'0' && (d == b'x' || d == b'X') then s else c ∷ d ∷ s

-- The digits that follow, read after the number so far.
unfoldable pub more_digits : ℕ → Str → ℕ × Str
more_digits value [] = (value, [])
more_digits value (c ∷ s) = elim (hex_digit c) [
  | none ↦ (value, c ∷ s)
  | some d ↦ more_digits (value * 16 + d) s
]

-- At least one digit.
unfoldable pub digits : Str → Option (ℕ × Str)
digits [] = none
digits (c ∷ s) = elim (hex_digit c) [ none ↦ none | some d ↦ some (more_digits d s) ]

-- What is stored in an `unsigned char`: `strtoul` saturates, and a minus sign negates.
unfoldable pub store : Bool → ℕ → ℕ
store minus value =
    if ltb value (2 ^ 64) then (if minus then (256 - value % 256) % 256 else value % 256) else 255

abbrev pub stored : Bool → Option (ℕ × Str) → Option (ℕ × Str)
stored minus none = none
stored minus (some (value, rest)) = some (store minus value, rest)

-- `%hhx`
unfoldable pub scan_hex : Str → Option (ℕ × Str)
scan_hex text =
    let (minus, s) = take_sign (skip_spaces text) in stored minus (digits (skip_prefix s))

-- `%*1[-: ]`
unfoldable pub scan_separator : Str → Option Str
scan_separator [] = none
scan_separator (c ∷ s) = if c == b'-' || c == b':' || c == b' ' then some s else none

-- `n + 1` bytes with separators between them, and what is left of the text.
unfoldable pub scan_bytes : ℕ → Str → Option (List ℕ × Str)
scan_bytes zero text = elim (scan_hex text) [ none ↦ none | some (b, s) ↦ some (b ∷ [], s) ]
scan_bytes (suc n) text = elim (scan_hex text) [
  | none ↦ none
  | some (b, s) ↦ elim (scan_separator s) [
    | none ↦ none
    | some t ↦ elim (scan_bytes n t) [ none ↦ none | some (bs, rest) ↦ some (b ∷ bs, rest) ]
  ]
]
