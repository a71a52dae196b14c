-- ===== src/Util/Enum.antt =====
-- core/core/util/Enum.h: enumerations and their texts, by the reflection of the library magic_enum.
use cpp_grcp_testground.Prelude.{
  ℕ, suc, ◌≡◌, refl, ap, ◌∙◌, sym, Option, some, List, [], ◌∷◌, ◌++◌, map, Str, length, All,
}
use mathlib.Core.Path.{subst}
use cpp_grcp_testground.Models.Time.{ℤ}

-- What is used of magic_enum for an enumeration. The laws are documented behaviour: the entries are
-- the values with their names, the count is how many values there are, and the cast of a value's name
-- or number is the value.
pub record EnumLibrary {ℓ} (E : Type ℓ) : Type ℓ where
  pub enum_values : List E
  pub enum_name : E → Str
  pub enum_number : E → ℤ
  pub enum_cast : Str → Option E
  pub enum_cast_number : ℤ → Option E
  pub enum_count : ℕ
  pub enum_entries : List (E × Str)
  pub count_values : enum_count ≡ length enum_values
  pub entries_values : enum_entries ≡ map (λ e. (e, enum_name e)) enum_values
  pub cast_name : All (λ e. enum_cast (enum_name e) ≡ some e) enum_values
  pub cast_number : All (λ e. enum_cast_number (enum_number e) ≡ some e) enum_values

module _ {ℓ} {E : Type ℓ} (lib : EnumLibrary E) where
  unfoldable pub to_string : E → Str
  to_string e = lib.enum_name e

  -- `toEnum` of a text, and of a number.
  unfoldable pub to_enum : Str → Option E
  to_enum text = lib.enum_cast text

  unfoldable pub to_enum_number : ℤ → Option E
  to_enum_number number = lib.enum_cast_number number

  unfoldable pub count : ℕ
  count = lib.enum_count

  unfoldable pub enumerate : List E
  enumerate = lib.enum_values

  unfoldable pub entries : List (E × Str)
  entries = lib.enum_entries

  -- The formatters of a registered enumeration and of an entry, over the formatting library's of a text
  -- by a specification.
  unfoldable pub format_enum {κ} : {S : Type κ} → (S → Str → Str) → S → E → Str
  unfolding to_string
  format_enum format_text spec e = format_text spec (to_string e)

  unfoldable pub format_entry {κ} : {S : Type κ} → (S → Str → Str) → S → E × Str → Str
  unfolding to_string
  format_entry format_text spec (e, name) =
      format_text spec (to_string e ++ (32 ∷ 40 ∷ name ++ (41 ∷ [])))

  abbrev named : E → E × Str
  named e = (e, lib.enum_name e)

  All-map {κ} :
      {B : Type κ} (P : B → Type ℓ) (f : E → B) (es : List E)
      → All (λ e. P (f e)) es
      → All P (map f es)
  All-map P f [] h = tt
  All-map P f (e ∷ es) h = (h.0, All-map P f es h.1)

  -- The name in each entry of an enumeration leads back to its value, and there are as many entries
  -- as the enumeration counts.
  pub entries-to_enum :
      All (λ (p : E × Str). to_enum p.1 ≡ some p.0) entries × (length entries ≡ count)
  unfolding to_enum entries count
  entries-to_enum = (
    subst (All (λ (p : E × Str). lib.enum_cast p.1 ≡ some p.0)) (sym lib.entries_values) (
        All-map (λ (p : E × Str). lib.enum_cast p.1 ≡ some p.0) (λ e. (e, lib.enum_name e))
          lib.enum_values lib.cast_name),
    entries-length ∙ length-entries lib.enum_values ∙ sym lib.count_values,
  )
    where
      entries-length : length lib.enum_entries ≡ length (map (λ e. named e) lib.enum_values)
      entries-length = rw lib.entries_values refl

      length-entries : (es : List E) → length (map (λ e. named e) es) ≡ length es
      length-entries [] = refl
      length-entries (e ∷ es) = ap suc (length-entries es)
