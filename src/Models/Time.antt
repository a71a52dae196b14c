-- ===== src/Models/Time.antt =====
-- core/core/util/Time.h: times and durations of `std::chrono`. A `TimePoint` is its count of
-- nanoseconds since the epoch of the system clock.
use cpp_grcp_testground.Prelude.{ℕ, zero, suc, ◌+◌, ◌-◌, ◌*◌, ◌/◌, Bool, leb, if◌then◌else◌}

pub data ℤ : Type 0 where
  pos : ℕ → ℤ
  negsuc : ℕ → ℤ

-- The integer `- n`.
abbrev pub neg_of_ℕ : ℕ → ℤ
neg_of_ℕ zero = pos 0
neg_of_ℕ (suc n) = negsuc n

abbrev pub Milliseconds : Type 0
Milliseconds = ℤ

abbrev pub nanos_per_milli : ℕ
nanos_per_milli = 1_000_000

abbrev pub nanos_per_second : ℕ
nanos_per_second = 1_000_000_000

-- `duration_cast<milliseconds>(later - earlier)` rounds towards zero.
unfoldable pub milliseconds_between : ℕ → ℕ → Milliseconds
milliseconds_between later earlier =
    if leb earlier later
    then pos ((later - earlier) / nanos_per_milli)
    else neg_of_ℕ ((earlier - later) / nanos_per_milli)

-- `now - start >= seconds(n)`
unfoldable pub has_passed : ℕ → ℕ → ℕ → Bool
has_passed now start n = leb (start + n * nanos_per_second) now
