-- ===== src/Util/Sequence/Walk.antt =====
-- What a range visits, for values that count modulo some number.
use native.Mathlib.Decide.{dec_lt}
use native.Mathlib.Nat.{mod-eq_of_lt, mod_self, add-mod_right}
use cpp_grcp_testground.Prelude.{
  ℕ, zero, suc, ◌+◌, ◌-◌, ◌%◌, ◌≤◌, ◌<◌, ◌≡◌, sym, ap, ◌∙◌, ◌↔◌, true, some, List, [], ◌∷◌, map,
  ◌≢◌, arith, Bool-cases, inl, inr, All,
}
use cpp_grcp_testground.Util.Sequence.{Steps, visit}

-- Values that are counted by a number below `modulus`, which `++` raises by one, going round.
pub record Counts {ℓ} {T : Type ℓ} (s : Steps T) : Type (ℓ + 1) where
  pub IsValid : T → Type 0
  pub rank : T → ℕ
  pub modulus : ℕ
  pub modulus_pos : 0 < modulus
  pub rank-lt : (a : T) → IsValid a → rank a < modulus
  pub next-IsValid : (a : T) → IsValid a → IsValid (s.next a)
  pub rank-next : (a : T) → IsValid a → rank (s.next a) ≡ (rank a + 1) % modulus
  pub equal_iff : (a b : T) → IsValid a → IsValid b → (s.equal a b ≡ true) ↔ (rank a ≡ rank b)

-- The numbers from `start` on, `n` of them, modulo `m`.
abbrev pub numbers : ℕ → ℕ → ℕ → List ℕ
numbers m zero start = []
numbers m (suc n) start = start ∷ numbers m n ((start + 1) % m)

-- How many steps lead from one number to another.
abbrev pub distance : ℕ → ℕ → ℕ → ℕ
distance m a b = (b + m - a) % m

distance_self : (m a : ℕ) → 0 < m → distance m a a ≡ 0
distance_self m a p =
    let e : a + m - a ≡ 0 + m = omega arith in rw (e, add-mod_right 0 m) (mod-eq_of_lt p)

distance_up : (m a b : ℕ) → a ≤ b → b < m → distance m a b ≡ b - a
distance_up m a b h k =
    let e : b + m - a ≡ (b - a) + m = omega arith in
    rw (e, add-mod_right (b - a) m) (mod-eq_of_lt (omega arith))

distance_round : (m a b : ℕ) → b < a → a < m → distance m a b ≡ b + m - a
distance_round m a b h k = mod-eq_of_lt (omega arith)

distance-suc :
    (m a b : ℕ) → a < m → b < m → a ≢ b → distance m a b ≡ suc (distance m ((a + 1) % m) b)
distance-suc m a b h k ne = elim (dec_lt (a + 1) m) [
  | yes in_range ↦ rw (mod-eq_of_lt in_range) (
      ground (
        arith,
        distance_up m a b,
        distance_round m a b,
        distance_up m (a + 1) b,
        distance_round m (a + 1) b,
      ))
  | no last ↦
      let e : a + 1 ≡ m = omega arith in
      rw (e, mod_self m)
        (ground (arith, distance_up m a b, distance_round m a b, distance_up m 0 b))
]

module _ {ℓ} {T : Type ℓ} (s : Steps T) (c : Counts s) where
  open c use {IsValid, rank, modulus}

  -- The loop over a range ends, within as many rounds as the numbers have steps from its first
  -- value to its last, and visits the values counted from the first up to before the last.
  pub visit-numbers :
      (fuel : ℕ) (a b : T)
      → IsValid a
      → IsValid b
      → distance modulus (rank a) (rank b) < fuel
      → (xs : List T) × (visit s fuel a b ≡ some xs)
        × (map rank xs ≡ numbers modulus (distance modulus (rank a) (rank b)) (rank a))
        × All IsValid xs
  unfolding visit
  visit-numbers zero a b va vb h = absurd (omega arith)
  visit-numbers (suc fuel) a b va vb h = elim (Bool-cases (s.equal a b)) [
    | inl done ↦
        let e : rank a ≡ rank b = (c.equal_iff a b va vb).0 done in
        let none_left : distance modulus (rank a) (rank b) ≡ 0 =
          rw e (distance_self modulus (rank b) c.modulus_pos) in
        ([], rw done, rw none_left, tt)
    | inr more ↦
        let ne : rank a ≢ rank b = λ e. cc (more, (c.equal_iff a b va vb).1 e) in
        let one_less =
          distance-suc modulus (rank a) (rank b) (c.rank-lt a va) (c.rank-lt b vb) ne in
        let vn = c.next-IsValid a va in
        let r = c.rank-next a va in
        let (xs, ran, ranks, valid) = visit-numbers fuel (s.next a) b vn vb (rw r (omega arith)) in
        let from = λ (x : ℕ). numbers modulus (distance modulus x (rank b)) x in
        let counted =
          ap (λ (l : List ℕ). rank a ∷ l) (ranks ∙ ap from r)
          ∙ ap (λ n. numbers modulus n (rank a)) (sym one_less) in
        (a ∷ xs, rw (more, ran), counted, (va, valid))
  ]
