-- ===== src/Util/Uuid.antt =====
-- core/core/util/Uuid.h: identifiers, over those of the library boost, and the texts of
-- core/core/traits/Printable.h.
use cpp_grcp_testground.Prelude.{ℕ, ◌≡◌, ◌↔◌, Bool, true, false, not, ◌||◌, Str, arith}

-- What is used of boost's identifiers `U`. The laws are documented behaviour: they are compared for
-- equality and ordered by their bytes.
pub record UuidLibrary {ℓ} (U : Type ℓ) : Type ℓ where
  pub nil_uuid : U
  pub same_uuid : U → U → Bool
  pub less_uuid : U → U → Bool
  pub hash_value : U → ℕ
  pub uuid_text : U → Str
  pub same_iff : (a b : U) → (same_uuid a b ≡ true) ↔ (a ≡ b)
  pub less_irrefl : (a : U) → less_uuid a a ≡ false
  pub less_asym : (a b : U) → less_uuid a b ≡ true → less_uuid b a ≡ false
  pub less_connected : (a b : U) → less_uuid a b ≡ false → less_uuid b a ≡ false → a ≡ b

pub record Uuid {ℓ} (U : Type ℓ) : Type ℓ where
  pub uuid : U

module _ {ℓ} {U : Type ℓ} (lib : UuidLibrary U) where
  -- With the identifier that the library's generator draws.
  unfoldable pub generate : U → Uuid U
  generate drawn = record { uuid = drawn }

  unfoldable pub nil : Uuid U
  nil = record { uuid = lib.nil_uuid }

  unfoldable pub hash : Uuid U → ℕ
  hash a = lib.hash_value a.uuid

  unfoldable pub to_string : Uuid U → Str
  to_string a = lib.uuid_text a.uuid

  unfoldable pub equal : Uuid U → Uuid U → Bool
  equal a b = lib.same_uuid a.uuid b.uuid

  unfoldable pub not_equal : Uuid U → Uuid U → Bool
  unfolding equal
  not_equal a b = not (equal a b)

  unfoldable pub less : Uuid U → Uuid U → Bool
  less a b = lib.less_uuid a.uuid b.uuid

  unfoldable pub greater : Uuid U → Uuid U → Bool
  unfolding less
  greater a b = less b a

  unfoldable pub less_equal : Uuid U → Uuid U → Bool
  unfolding less
  less_equal a b = not (less b a)

  unfoldable pub greater_equal : Uuid U → Uuid U → Bool
  unfolding less
  greater_equal a b = not (less a b)

  unfoldable pub is_nil : Uuid U → Bool
  unfolding equal nil
  is_nil a = equal a nil

  -- `<=` of identifiers is `<` or `==`, and `>=` is `>` or `==`.
  pub less_equal_iff :
      (a b : Uuid U)
      → (less_equal a b ≡ less a b || equal a b) × (greater_equal a b ≡ greater a b || equal a b)
  unfolding less_equal greater_equal greater less equal
  less_equal_iff a b = (
    ground (
      arith,
      lib.same_iff a.uuid b.uuid,
      lib.less_asym a.uuid b.uuid,
      lib.less_connected a.uuid b.uuid,
      lib.less_irrefl a.uuid,
    ),
    ground (
      arith,
      lib.same_iff a.uuid b.uuid,
      lib.less_asym b.uuid a.uuid,
      lib.less_connected a.uuid b.uuid,
      lib.less_irrefl a.uuid,
    ),
  )
