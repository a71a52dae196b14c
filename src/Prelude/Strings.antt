-- ===== src/Prelude/Strings.antt =====
-- The order of `std::string`: by the first byte that differs, a prefix coming first.
use Prim.Native.Char.{code}
use Prim.Native.String.{String}
use mathlib.Core.Path.{◌≡◌, refl}
use mathlib.Core.Bool.{Bool, true, false, not, ◌&&◌}
use mathlib.Core.List.{[], ◌∷◌}
use native.Mathlib.Omega.{arith}
use cpp_grcp_testground.Prelude.Tests.{ltb, if◌then◌else◌}
use cpp_grcp_testground.Prelude.Lists.{Str}
use cpp_grcp_testground.Prelude.Map.{Order, same}

-- The bytes of a text of ASCII characters.
abbrev pub codes : String → Str
codes String.[] = []
codes (String.◌∷◌ c s) = code c ∷ codes s

unfoldable pub str_less : Str → Str → Bool
str_less [] [] = false
str_less [] (y ∷ ys) = true
str_less (x ∷ xs) [] = false
str_less (x ∷ xs) (y ∷ ys) =
    let rest = str_less xs ys in if ltb x y then true else if ltb y x then false else rest

pub str_less_irrefl : (a : Str) → str_less a a ≡ false
unfolding str_less
str_less_irrefl [] = refl
str_less_irrefl (x ∷ a) = ground (arith, str_less_irrefl a)

pub str_less_trans : (a b c : Str) → str_less a b ≡ true → str_less b c ≡ true → str_less a c ≡ true
unfolding str_less
str_less_trans [] [] c h k = cc
str_less_trans [] (y ∷ b) [] h k = cc
str_less_trans [] (y ∷ b) (z ∷ c) h k = refl
str_less_trans (x ∷ a) [] c h k = cc
str_less_trans (x ∷ a) (y ∷ b) [] h k = cc
str_less_trans (x ∷ a) (y ∷ b) (z ∷ c) h k = ground (arith, str_less_trans a b c)

pub str_less_connected : (a b : Str) → str_less a b ≡ false → str_less b a ≡ false → a ≡ b
unfolding str_less
str_less_connected [] [] h k = refl
str_less_connected [] (y ∷ b) h k = cc
str_less_connected (x ∷ a) [] h k = cc
str_less_connected (x ∷ a) (y ∷ b) h k = ground (arith, str_less_connected a b)

pub str_same_trans :
    (a b c : Str)
    → not (str_less a b) && not (str_less b a) ≡ true
    → not (str_less b c) && not (str_less c b) ≡ true
    → not (str_less a c) && not (str_less c a) ≡ true
str_same_trans a b c h k = ground (arith, str_less_connected a b, str_less_connected b c)

instance abbrev pub str_order : Order Str
str_order = record {
  less = str_less;
  less_irrefl = str_less_irrefl;
  less_trans = str_less_trans;
  same_trans = str_same_trans;
}

-- Two texts are the same key only if they are equal.
pub str_same-eq : (a b : Str) → same a b ≡ true → a ≡ b
str_same-eq a b h = ground (arith, str_less_connected a b)
