-- ===== src/Common/Time.antt =====
-- Rust's `Duration` as its number of nanoseconds, and the saturating operations on it and on
-- the unsigned integers. `saturating_sub` is the subtraction of ℕ, which stops at 0.
use Prim.Native.Nat.{ℕ, ◌+◌, ◌*◌, ◌%◌, min}

-- `Duration::MAX`: u64::MAX seconds and 999_999_999 nanoseconds.
abbrev pub max_duration : ℕ
max_duration = 18446744073709551615999999999

abbrev pub max_u64 : ℕ
max_u64 = 18446744073709551615

abbrev pub max_u128 : ℕ
max_u128 = 340282366920938463463374607431768211455

abbrev pub from_secs : ℕ → ℕ
from_secs s = s * 1000000000

abbrev pub from_millis : ℕ → ℕ
from_millis m = m * 1000000

-- `Duration::saturating_add`.
abbrev pub add_time : ℕ → ℕ → ℕ
add_time a b = min (a + b) max_duration

-- `u64::saturating_add` and `u128::saturating_add`.
abbrev pub add_u64 : ℕ → ℕ → ℕ
add_u64 a b = min (a + b) max_u64

abbrev pub add_u128 : ℕ → ℕ → ℕ
add_u128 a b = min (a + b) max_u128

-- `u64::wrapping_add(1)`.
abbrev pub wrapping_suc : ℕ → ℕ
wrapping_suc g = (g + 1) % 18446744073709551616
