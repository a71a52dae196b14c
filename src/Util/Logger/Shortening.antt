-- ===== src/Util/Logger/Shortening.antt =====
-- What the logger makes of the name of a function with template arguments.
use native.Mathlib.Nat.{zero-add, suc-add, add_comm}
use mathlib.Core.List.{append_assoc}
use cpp_grcp_testground.Prelude.{
  sym, ap, ℕ, suc, ◌+◌, ◌-◌, ◌%◌, ◌^◌, ◌≤◌, ◌<◌, ◌≡◌, ◌≢◌, refl, none, some, [], ◌∷◌, ◌++◌, Str,
  length, length-append, ltb, if◌then◌else◌, All, arith,
}
use cpp_grcp_testground.Util.Logger.{
  take, drop, find, find_first_of, find_last_of, cut_arguments, format, lambda_start, ellipsis,
}

find_first_of-append :
    (x : ℕ) (before rest : Str)
    → All (λ c. c ≢ x) before
    → find_first_of x (before ++ (x ∷ rest)) ≡ some (length before)
unfolding find_first_of
find_first_of-append x [] rest h = ground arith
find_first_of-append x (c ∷ before) rest h =
    rw (find_first_of-append x before rest h.1) (ground (arith, h.0))

find_last_of-none : (x : ℕ) (s : Str) → All (λ c. c ≢ x) s → find_last_of x s ≡ none
unfolding find_last_of
find_last_of-none x [] h = refl
find_last_of-none x (c ∷ s) h = rw (find_last_of-none x s h.1) (ground (arith, h.0))

find_last_of-append :
    (x : ℕ) (before after : Str)
    → All (λ c. c ≢ x) after
    → find_last_of x (before ++ (x ∷ after)) ≡ some (length before)
unfolding find_last_of
find_last_of-append x [] after h = rw (find_last_of-none x after h) (ground arith)
find_last_of-append x (c ∷ before) after h = rw (find_last_of-append x before after h) refl

take-append : (before rest : Str) → take (length before) (before ++ rest) ≡ before
take-append [] rest = refl
take-append (c ∷ before) rest = rw (take-append before rest) refl

drop-append : (before rest : Str) (n : ℕ) → drop (length before + n) (before ++ rest) ≡ drop n rest
drop-append [] rest n = rw (zero-add n) refl
drop-append (c ∷ before) rest n = rw (suc-add (length before) n) (drop-append before rest n)

distance :
    (begin end : ℕ) → begin ≤ end → end < 2 ^ 64 → (2 ^ 64 + end - begin) % 2 ^ 64 ≡ end - begin
distance begin end h k = omega arith

drop_both :
    (before arguments after : Str)
    → drop
        (length before + (length before + suc (length arguments)))
        (before ++ (60 ∷ arguments ++ (62 ∷ after)))
      ≡ drop (length before) (62 ∷ after)
drop_both before arguments after =
    rw
      (
        drop-append before (60 ∷ arguments ++ (62 ∷ after))
            (length before + suc (length arguments)),
        add_comm (length before) (suc (length arguments)),
      )
      (drop-append (60 ∷ arguments) (62 ∷ after) (length before))

-- The second replacement, where both brackets were found.
cut_arguments_lem :
    (before arguments after : Str)
    → length before + length arguments + 1 < 2 ^ 64
    → cut_arguments
        (some (length before))
        (some (length (before ++ (60 ∷ arguments))))
        (before ++ (60 ∷ arguments ++ (62 ∷ after)))
      ≡ (if ltb (length arguments) 19
          then before ++ (60 ∷ arguments ++ (62 ∷ after))
          else before ++ ellipsis ++ drop (length before) (62 ∷ after))
cut_arguments_lem before arguments after short =
    rw
      (
        length-append before (60 ∷ arguments),
        distance (length before) (length before + suc (length arguments)) (omega arith)
            (omega arith),
        take-append before (60 ∷ arguments ++ (62 ∷ after)),
      )
      (ground (arith, drop_both before arguments after))

-- A name with one pair of angle brackets, no lambda in it, and less than 2 ^ 64 bytes, is written as it
-- is if there are less than nineteen bytes between the brackets. Else what stands between them is
-- written as `...`, but of the closing bracket and what follows it as many bytes are lost as stand
-- before the opening one, since the position of the closing bracket is taken for the number of bytes
-- to replace.
pub format-arguments :
    (func before arguments after : Str)
    → func ≡ before ++ (60 ∷ arguments ++ (62 ∷ after))
    → find lambda_start func ≡ none
    → All (λ c. c ≢ 60) before
    → All (λ c. c ≢ 62) after
    → length func < 2 ^ 64
    → format func ≡ (
        if ltb (length arguments) 19
        then func
        else before ++ ellipsis ++ drop (length before) (62 ∷ after))
unfolding format
format-arguments func before arguments after shape plain opens closes short =
    rw (plain, shape, find_first_of-append 60 before (arguments ++ (62 ∷ after)) opens, last)
      (cut_arguments_lem before arguments after (
        omega (
          arith,
          shape_length,
          length-append before (60 ∷ arguments ++ (62 ∷ after)),
          length-append arguments (62 ∷ after),
        )))
  where
    shape_length : length func ≡ length (before ++ (60 ∷ arguments ++ (62 ∷ after)))
    shape_length = ap length shape

    last :
        find_last_of 62 (before ++ (60 ∷ arguments ++ (62 ∷ after)))
        ≡ some (length (before ++ (60 ∷ arguments)))
    last =
        rw (sym (append_assoc before (60 ∷ arguments) (62 ∷ after)))
          (find_last_of-append 62 (before ++ (60 ∷ arguments)) after closes)
