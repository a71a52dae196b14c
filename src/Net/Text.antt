-- ===== src/Net/Text.antt =====
-- Addresses as text: how one byte is written is taken from the formatting library (`fmt`), and
-- `fmt::join` sets a separator between the items.
use cpp_grcp_testground.Prelude.{
  ℕ, ◌≡◌, ◌≢◌, refl, ap, List, [], ◌∷◌, ◌++◌, map, Str, length, All, arith,
}
use cpp_grcp_testground.Net.Bytes.{IsByte}

-- `fmt::join`
abbrev pub join : ℕ → List Str → Str
join sep [] = []
join sep (x ∷ []) = x
join sep (x ∷ y ∷ xs) = x ++ (sep ∷ join sep (y ∷ xs))

-- A rendering of bytes that never writes the separator, and writes different bytes differently.
pub record Rendering (sep : ℕ) (write : ℕ → Str) : Type 0 where
  pub no_sep : (b : ℕ) → IsByte b → All (λ c. c ≢ sep) (write b)
  pub injective : (a b : ℕ) → IsByte a → IsByte b → write a ≡ write b → a ≡ b

-- A text splits at its first separator in one way only.
split_unique :
    (sep : ℕ) (x y r t : Str)
    → All (λ c. c ≢ sep) x
    → All (λ c. c ≢ sep) y
    → x ++ (sep ∷ r) ≡ y ++ (sep ∷ t)
    → (x ≡ y) × (r ≡ t)
split_unique sep [] [] r t hx hy e = (refl, cc)
split_unique sep [] (b ∷ y) r t hx hy e = absurd (hy.0 (cc))
split_unique sep (a ∷ x) [] r t hx hy e = absurd (hx.0 (cc))
split_unique sep (a ∷ x) (b ∷ y) r t hx hy e =
    let (p, q) = split_unique sep x y r t hx.1 hy.1 (cc) in (cc, q)

module _ {sep : ℕ} {write : ℕ → Str} (f : Rendering sep write) where
  -- Byte sequences of one length that read the same are the same.
  pub join-injective :
      (xs ys : List ℕ)
      → All IsByte xs
      → All IsByte ys
      → length xs ≡ length ys
      → join sep (map write xs) ≡ join sep (map write ys)
      → xs ≡ ys
  join-injective [] [] hx hy l e = refl
  join-injective [] (y ∷ ys) hx hy l e = absurd (omega arith)
  join-injective (x ∷ xs) [] hx hy l e = absurd (omega arith)
  join-injective (x ∷ []) (y ∷ []) hx hy l e = ap (λ b. b ∷ []) (f.injective x y hx.0 hy.0 e)
  join-injective (x ∷ []) (y ∷ b ∷ ys) hx hy l e = absurd (omega arith)
  join-injective (x ∷ a ∷ xs) (y ∷ []) hx hy l e = absurd (omega arith)
  join-injective (x ∷ a ∷ xs) (y ∷ b ∷ ys) hx hy l e =
      let (p, q) =
        split_unique sep (write x) (write y) (join sep (map write (a ∷ xs)))
          (join sep (map write (b ∷ ys))) (f.no_sep x hx.0) (f.no_sep y hy.0) e in
      let tail = join-injective (a ∷ xs) (b ∷ ys) hx.1 hy.1 (omega arith) q in
      let head = f.injective x y hx.0 hy.0 p in cc
