-- ===== src/Util/Printable.antt =====
-- core/core/traits/Printable.h: what can be printed is printed as its text.
use cpp_grcp_testground.Prelude.{◌++◌, Str}

-- The virtual function `toString` of `Printable` and of `Printer`.
pub record Printable {ℓ} (A : Type ℓ) : Type ℓ where
  pub to_string : A → Str

module _ {ℓ} {A : Type ℓ} ⦃p : Printable A⦄ where
  -- `operator<<`, with what was written to the stream before.
  unfoldable pub print : Str → A → Str
  print os self = os ++ p.to_string self

  -- The formatter, over the formatting library's of a text by a specification.
  unfoldable pub format {κ} : {S : Type κ} → (S → Str → Str) → S → A → Str
  format format_text spec self = format_text spec (p.to_string self)

-- `Printer`, which holds what it prints by reference.
pub record Printer {ℓ} (A : Type ℓ) : Type ℓ where
  pub held : A

unfoldable pub print_held {ℓ} : {A : Type ℓ} → (A → Str) → Str → Printer A → Str
print_held to_string os self = os ++ to_string self.held
