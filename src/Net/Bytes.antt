-- ===== src/Net/Bytes.antt =====
-- Byte arrays as machine numbers: the `memcpy` of an array into an integer on a little-endian host,
-- and the comparison of arrays.
use native.Mathlib.Nat.{pow-suc}
use cpp_grcp_testground.Prelude.{
  ℕ, ◌+◌, ◌*◌, ◌/◌, ◌%◌, ◌^◌, ◌<◌, ◌≡◌, refl, ◌↔◌, Bool, true, false, ◌&&◌, List, [], ◌∷◌, reverse,
  arith, ◌==◌, length, length-reverse, All, All-reverse,
}

-- `(number >> 8 * i) & 0xFF`
abbrev pub byte : ℕ → ℕ → ℕ
byte i number = number / 256 ^ i % 256

-- The integer that holds the bytes in memory, the least significant first.
abbrev pub le_value : List ℕ → ℕ
le_value [] = 0
le_value (b ∷ bytes) = b + 256 * le_value bytes

-- `std::array::operator==`
abbrev pub bytes_equal : List ℕ → List ℕ → Bool
bytes_equal [] [] = true
bytes_equal (x ∷ xs) (y ∷ ys) = x == y && bytes_equal xs ys
bytes_equal _ _ = false

abbrev pub IsByte : ℕ → Type 0
IsByte b = b < 256

-- `n` bytes.
abbrev pub IsArray : ℕ → List ℕ → Type 0
IsArray n bytes = (length bytes ≡ n) × All IsByte bytes

pub bytes_equal_iff : (xs ys : List ℕ) → (bytes_equal xs ys ≡ true) ↔ (xs ≡ ys)
bytes_equal_iff [] [] = ground arith
bytes_equal_iff [] (y ∷ ys) = ground arith
bytes_equal_iff (x ∷ xs) [] = ground arith
bytes_equal_iff (x ∷ xs) (y ∷ ys) = ground (arith, bytes_equal_iff xs ys)

-- Arrays of one size with one value are the same array.
pub le_value-injective :
    (xs ys : List ℕ)
    → All IsByte xs
    → All IsByte ys
    → length xs ≡ length ys
    → le_value xs ≡ le_value ys
    → xs ≡ ys
le_value-injective [] [] hx hy l e = refl
le_value-injective [] (y ∷ ys) hx hy l e = absurd (omega arith)
le_value-injective (x ∷ xs) [] hx hy l e = absurd (omega arith)
le_value-injective (x ∷ xs) (y ∷ ys) hx hy l e =
    let head : x ≡ y = omega arith in
    ground (arith, le_value-injective xs ys hx.1 hy.1 (omega arith) (omega arith))

pub le_value-lt : (xs : List ℕ) → All IsByte xs → le_value xs < 256 ^ length xs
le_value-lt [] h = omega arith
le_value-lt (x ∷ xs) h = simp pow-suc (omega (arith, le_value-lt xs h.1))

pub reverse-IsArray : (n : ℕ) (xs : List ℕ) → IsArray n xs → IsArray n (reverse xs)
reverse-IsArray n xs h = (rw (length-reverse xs) h.0, All-reverse IsByte xs h.1)
