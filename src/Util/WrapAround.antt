-- ===== src/Util/WrapAround.antt =====
-- core/core/util/type/WrapAround.h: a number that wraps between two limits.
--
-- A value of the machine type `T` is kept as its distance from `numeric_limits<T>::min()`, which
-- keeps the order of a signed and of an unsigned type alike; `top` is the distance of the largest
-- value, and `++` and `--` of the machine type go modulo `top + 1`.
pub mod Cycle
use cpp_grcp_testground.Prelude.{ℕ, ◌+◌, ◌%◌, Bool, ◌&&◌, ltb, ◌==◌, if◌then◌else◌, not}

-- `T`, `MinValue` and `MaxValue` of the template.
pub record Limits : Type 0 where
  pub min_value : ℕ
  pub max_value : ℕ
  pub top : ℕ

-- `WrapAround::wrap`: the value that is stored.
unfoldable pub wrap : Limits → ℕ → ℕ
wrap t value =
    if t.min_value == 0 && t.max_value == t.top
    then value
    else if ltb value t.min_value
    then t.max_value
    else if ltb t.max_value value
    then t.min_value
    else value

-- The default constructor.
unfoldable pub initial : Limits → ℕ
initial t = t.min_value

-- The constructor from a value.
unfoldable pub construct : Limits → ℕ → ℕ
unfolding wrap
construct t value = wrap t value

-- `operator++` and `operator--`: the machine type's own step, and then `wrap`. The step is modular, as
-- it is for unsigned types and for those smaller than `int`; for `int` and wider signed types, a step
-- over the end of the type is undefined in C++.
unfoldable pub increment : Limits → ℕ → ℕ
unfolding wrap
increment t value = wrap t ((value + 1) % (t.top + 1))

unfoldable pub decrement : Limits → ℕ → ℕ
unfolding wrap
decrement t value = wrap t ((value + t.top) % (t.top + 1))

-- The comparisons of two wrapped numbers.
abbrev pub equal : ℕ → ℕ → Bool
equal a b = a == b

abbrev pub less : ℕ → ℕ → Bool
less a b = ltb a b

abbrev pub greater : ℕ → ℕ → Bool
greater a b = less b a

abbrev pub less_equal : ℕ → ℕ → Bool
less_equal a b = not (less b a)

abbrev pub greater_equal : ℕ → ℕ → Bool
greater_equal a b = not (less a b)

abbrev pub not_equal : ℕ → ℕ → Bool
not_equal a b = not (equal b a)

-- The comparisons with a number of another type, as the distance of that number.
abbrev pub equal_number : ℕ → ℕ → Bool
equal_number a n = a == n

abbrev pub not_equal_number : ℕ → ℕ → Bool
not_equal_number a n = not (a == n)

abbrev pub less_number : ℕ → ℕ → Bool
less_number a n = ltb a n

abbrev pub greater_number : ℕ → ℕ → Bool
greater_number a n = ltb n a
