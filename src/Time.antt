-- ===== src/Time.antt =====
-- The conversions to `__kernel_timespec` of iouring/io_uring_utils.h.
pub mod Exact
mod Tests
use iouring_cc.Common.{ℕ, suc, ◌+◌, ◌-◌, ◌*◌, ◌/◌, ◌%◌, ◌^◌, Option, none, some, if◌then◌else◌, ltb}
use iouring_cc.Common.Int.{ℤ, pos, negsuc, neg_ℤ}

-- A field that was never assigned is `none`.
pub record Timespec : Type 0 where
  pub tv_sec : Option ℤ
  pub tv_nsec : Option ℤ

-- A local variable before it is assigned to.
abbrev pub no_timespec : Timespec
no_timespec = record { tv_sec = none; tv_nsec = none }

abbrev pub nsec_per_sec : ℕ
nsec_per_sec = 1_000_000_000

-- `std::chrono::floor` to seconds, of nanoseconds.
unfoldable pub floor_seconds : ℤ → ℤ
floor_seconds (pos n) = pos (n / nsec_per_sec)
floor_seconds (negsuc n) = negsuc (n / nsec_per_sec)

-- `%` on a duration takes the sign of its left operand.
unfoldable pub rem_seconds : ℤ → ℤ
rem_seconds (pos n) = pos (n % nsec_per_sec)
rem_seconds (negsuc n) = neg_ℤ (pos (suc n % nsec_per_sec))

unfoldable pub chrono_to_kts : ℤ → Timespec
unfolding floor_seconds rem_seconds
chrono_to_kts t = record { tv_sec = some (floor_seconds t); tv_nsec = some (rem_seconds t) }

-- The `int64_t` of a `uint64_t`.
abbrev pub signed64 : ℕ → ℤ
signed64 w = if ltb w (2 ^ 63) then pos w else negsuc (2 ^ 64 - w - 1)

-- Division of an `int64_t` by a positive number, towards 0.
abbrev pub div_trunc : ℤ → ℕ → ℤ
div_trunc (pos n) k = pos (n / k)
div_trunc (negsuc n) k = neg_ℤ (pos (suc n / k))

-- Both conversions: the argument in units, and how many units make a second and how many
-- nanoseconds a unit. Unsigned subtraction and multiplication wrap.
abbrev to_timespec : ℕ → ℕ → ℕ → Timespec
to_timespec units nsec n =
    let rounded = n / units * units % 2 ^ 64 in
    let nsecs = (n + 2 ^ 64 - rounded) % 2 ^ 64 * nsec % 2 ^ 64 in
    record { tv_sec = some (div_trunc (signed64 rounded) units); tv_nsec = some (signed64 nsecs) }

unfoldable pub usec_to_timespec : ℕ → Timespec
usec_to_timespec usec = to_timespec 1_000_000 1000 usec

unfoldable pub msec_to_timespec : ℕ → Timespec
msec_to_timespec msec = to_timespec 1000 1_000_000 msec
