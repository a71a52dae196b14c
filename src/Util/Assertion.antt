-- ===== src/Util/Assertion.antt =====
-- core/core/util/Assertion.h: the macros `Verify` and `Assert`.
--
-- A macro takes text: its argument stands behind `!` with no parentheses, so that `!` is of its first
-- operand alone. An argument is modelled by its value and by that of its text behind `!`.
use cpp_grcp_testground.Prelude.{
  ◌≡◌, refl, Bool, true, false, not, ◌&&◌, ◌||◌, List, [], ◌++◌, Str, if◌then◌else◌, ℕ,
}
use cpp_grcp_testground.Prelude.Strings.{codes}
use cpp_grcp_testground.Util.Logger.{Logger}
use cpp_grcp_testground.Util.Logger.Debugging.{Line, core_warn}

-- The arguments that matter: one operand, and two operands that `||` or `&&` joins.
pub data Argument : Type 0 where
  operand : Bool → Argument
  either both : Bool → Argument → Argument

abbrev pub value : Argument → Bool
value (operand b) = b
value (either b rest) = b || value rest
value (both b rest) = b && value rest

-- The value of `!` and the text of the argument.
abbrev pub negated : Argument → Bool
negated (operand b) = not b
negated (either b rest) = not b || value rest
negated (both b rest) = not b && value rest

-- Whether the program goes on, and the lines that are logged; `text` is the text of the argument.
module _ (active : ℕ) (l : Logger) where
  unfoldable pub verify : Str → Argument → List Line × Bool
  verify text x =
      if negated x
      then (core_warn active l (codes "Verification '" ++ text ++ codes "' failed"), true)
      else ([], true)

  -- Without `NDEBUG` a failed assertion ends the program.
  unfoldable pub assert : Bool → Str → Argument → List Line × Bool
  assert ndebug text x =
      if negated x
      then (core_warn active l (codes "Assertion '" ++ text ++ codes "' failed"), ndebug)
      else ([], true)

  -- An assertion of one operand ends the program exactly when it is false and `NDEBUG` is not set.
  pub assert-operand :
      (ndebug b : Bool) (text : Str) → (assert ndebug text (operand b)).1 ≡ b || ndebug
  unfolding assert
  assert-operand ndebug true text = refl
  assert-operand ndebug false text = refl

  -- An assertion of two operands joined by `||` ends the program, without `NDEBUG`, exactly when the
  -- first is false or the second true; so it does where both are true, and where only the second is.
  pub assert-either :
      (a b : Bool) (text : Str) → (assert false text (either a (operand b))).1 ≡ a && not b
  unfolding assert
  assert-either true true text = refl
  assert-either true false text = refl
  assert-either false true text = refl
  assert-either false false text = refl
