-- ===== src/Util/ByteOrder.antt =====
-- core/core/util/ByteOrder.h: copying a range of bytes from one order to another.
use mathlib.Core.List.{reverse-reverse}
use cpp_grcp_testground.Prelude.{
  ◌≡◌, refl, Bool, true, false, Option, none, some, List, reverse, if◌then◌else◌,
}

pub data Value : Type 0 where
  little_endian big_endian : Value

abbrev pub host_order : Value
host_order = little_endian

abbrev pub network_order : Value
network_order = big_endian

abbrev pub same_order : Value → Value → Bool
same_order little_endian little_endian = true
same_order big_endian big_endian = true
same_order _ _ = false

-- `ByteOrder::CopyFrom`: the range to copy, and the order that it is in.
pub record CopyFrom {ℓ} (A : Type ℓ) : Type ℓ where
  pub input : List A
  pub source : Option Value

module _ {ℓ} {A : Type ℓ} where
  abbrev pub copy : List A → CopyFrom A
  copy input = record { input = input; source = none }

  abbrev pub from : CopyFrom A → Value → CopyFrom A
  from c order = record c { source = some order }

  -- The copy that `to` makes once the two orders are known.
  abbrev pub in_order : Value → Value → List A → List A
  in_order source target bytes = if same_order source target then bytes else reverse bytes

  -- `none` is the exception that `to` throws when `from` was not called.
  unfoldable pub to : CopyFrom A → Value → Option (List A)
  to c target = elim c.source [ none ↦ none | some source ↦ some (in_order source target c.input) ]

  pub in_order_back : (a b : Value) (bytes : List A) → in_order b a (in_order a b bytes) ≡ bytes
  in_order_back little_endian little_endian bytes = refl
  in_order_back little_endian big_endian bytes = reverse-reverse bytes
  in_order_back big_endian little_endian bytes = reverse-reverse bytes
  in_order_back big_endian big_endian bytes = refl

  -- A range that is copied from one order to another, and back from there, is the range itself;
  -- a copy whose order was never given throws, whatever it holds.
  pub to_round_trip :
      (a b : Value) (bytes : List A)
      → (to (from (copy bytes) a) b ≡ some (in_order a b bytes))
        × (to (from (copy (in_order a b bytes)) b) a ≡ some bytes)
        × (to (copy bytes) b ≡ none)
  unfolding to
  to_round_trip a b bytes = (refl, (λ i. some (in_order_back a b bytes i)), refl)
