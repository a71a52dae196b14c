-- ===== src/Net/Scan/Laws.antt =====
-- Bytes that are written as two upper-case hexadecimal digits scan back.
use cpp_grcp_testground.Prelude.{
  ℕ, zero, suc, ◌+◌, ◌*◌, ◌/◌, ◌%◌, ◌<◌, ◌≡◌, ◌≢◌, refl, false, none, some, List, [], ◌∷◌, ◌++◌,
  map, arith, ltb, if◌then◌else◌, Str, length, All, All-append,
}
use cpp_grcp_testground.Net.Bytes.{IsByte}
use cpp_grcp_testground.Net.Text.{join}
use cpp_grcp_testground.Net.Scan.{
  c_string, is_space, hex_digit, skip_spaces, take_sign, skip_prefix, more_digits, digits, store,
  scan_hex, scan_separator, scan_bytes,
}

abbrev pub upper_digit : ℕ → ℕ
upper_digit n = if ltb n 10 then n + 48 else n + 55

-- `{:02X}`
abbrev pub upper_hex : ℕ → Str
upper_hex b = upper_digit (b / 16) ∷ upper_digit (b % 16) ∷ []

-- What may follow a byte that scans back.
abbrev pub Ends : Str → Type 0
Ends [] = Unit {0}
Ends (c ∷ s) = hex_digit c ≡ none

hex_digit-upper_digit : (n : ℕ) → n < 16 → hex_digit (upper_digit n) ≡ some n
unfolding hex_digit
hex_digit-upper_digit n h = ground arith

skip_spaces-upper : (n : ℕ) (s : Str) → n < 16 → skip_spaces (upper_digit n ∷ s) ≡ upper_digit n ∷ s
unfolding skip_spaces is_space
skip_spaces-upper n s h = ground arith

take_sign-upper :
    (n : ℕ) (s : Str) → n < 16 → take_sign (upper_digit n ∷ s) ≡ (false, upper_digit n ∷ s)
unfolding take_sign
take_sign-upper n s h = ground arith

skip_prefix-upper :
    (m n : ℕ) (s : Str)
    → m < 16
    → n < 16
    → skip_prefix (upper_digit m ∷ upper_digit n ∷ s) ≡ upper_digit m ∷ upper_digit n ∷ s
unfolding skip_prefix
skip_prefix-upper m n s h k = ground arith

more_digits-Ends : (v : ℕ) (s : Str) → Ends s → more_digits v s ≡ (v, s)
unfolding more_digits
more_digits-Ends v [] h = refl
more_digits-Ends v (c ∷ s) h = rw (h, more_digits)

store_byte : (b : ℕ) → IsByte b → store false (b / 16 * 16 + b % 16) ≡ b
unfolding store
store_byte b h = ground arith

digits-upper :
    (m n : ℕ) (s : Str)
    → m < 16
    → n < 16
    → Ends s
    → digits (upper_digit m ∷ upper_digit n ∷ s) ≡ some (m * 16 + n, s)
unfolding digits more_digits
digits-upper m n s h k e = rw (
  hex_digit-upper_digit m h,
  digits,
  hex_digit-upper_digit n k,
  more_digits,
  more_digits-Ends (m * 16 + n) s e,
)

pub scan_hex-upper_hex :
    (b : ℕ) (s : Str) → IsByte b → Ends s → scan_hex (upper_hex b ++ s) ≡ some (b, s)
unfolding scan_hex
scan_hex-upper_hex b s h e =
    let hi : b / 16 < 16 = omega arith in
    let lo : b % 16 < 16 = omega arith in
    rw (
      skip_spaces-upper (b / 16) (upper_digit (b % 16) ∷ s) hi,
      take_sign-upper (b / 16) (upper_digit (b % 16) ∷ s) hi,
      skip_prefix-upper (b / 16) (b % 16) s hi lo,
      digits-upper (b / 16) (b % 16) s hi lo e,
      store_byte b h,
    )

colon_ends : hex_digit b':' ≡ none
unfolding hex_digit
colon_ends = refl

colon : (s : Str) → scan_separator (b':' ∷ s) ≡ some s
unfolding scan_separator
colon s = refl

-- `n + 1` bytes with colons between them scan to those bytes, and nothing is left.
pub scan_bytes-join :
    (n : ℕ) (bytes : List ℕ)
    → length bytes ≡ suc n
    → All IsByte bytes
    → scan_bytes n (join b':' (map upper_hex bytes)) ≡ some (bytes, [])
unfolding scan_bytes
scan_bytes-join zero (b ∷ []) l h = rw (scan_bytes, scan_hex-upper_hex b [] h.0 tt)
scan_bytes-join zero (b ∷ c ∷ bs) l h = absurd (omega arith)
scan_bytes-join zero [] l h = absurd (omega arith)
scan_bytes-join (suc n) [] l h = absurd (omega arith)
scan_bytes-join (suc n) (b ∷ []) l h = absurd (omega arith)
scan_bytes-join (suc n) (b ∷ c ∷ bs) l h =
    let tail = join b':' (map upper_hex (c ∷ bs)) in
    rw (
      scan_bytes,
      scan_hex-upper_hex b (b':' ∷ tail) h.0 colon_ends,
      colon tail,
      scan_bytes-join n (c ∷ bs) (omega arith) h.1,
    )

-- What holds no NUL byte is read whole.
pub c_string_whole : (s : Str) → All (λ c. c ≢ 0) s → c_string s ≡ s
unfolding c_string
c_string_whole [] h = refl
c_string_whole (c ∷ s) h = ground (arith, c_string_whole s h.1)

upper_hex-no_nul : (b : ℕ) → All (λ c. c ≢ 0) (upper_hex b)
upper_hex-no_nul b = ground arith

pub join-no_nul : (bytes : List ℕ) → All (λ c. c ≢ 0) (join b':' (map upper_hex bytes))
join-no_nul [] = tt
join-no_nul (b ∷ []) = upper_hex-no_nul b
join-no_nul (b ∷ c ∷ bs) =
    All-append (λ x. x ≢ 0) (upper_hex b) (b':' ∷ join b':' (map upper_hex (c ∷ bs)))
      (upper_hex-no_nul b) (omega arith, join-no_nul (c ∷ bs))
