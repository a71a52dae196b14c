-- ===== src/Prelude/Results.antt =====
-- core/core/util/Result.h: the error kinds and the result of a fallible call.

pub data ErrorType : Type 0 where
  aborted already_exists cancelled deadline_exceeded failed_precondition : ErrorType
  invalid_argument not_found out_of_range permission_denied resource_exhausted : ErrorType
  timed_out unauthenticated unavailable unimplemented unknown : ErrorType

-- `util::Result<T, Err>`, an `expected` that holds a value or an error.
pub data Result {ℓ κ} (A : Type ℓ) (E : Type κ) : Type (ℓ ⊔ κ) where
  ok : A → Result A E
  err : E → Result A E

-- `value_or`
abbrev pub value_or {ℓ κ} : {A : Type ℓ} {E : Type κ} → Result A E → A → A
value_or (ok a) d = a
value_or (err e) d = d
