-- ===== src/Time/Exact.antt =====
-- The conversions to `__kernel_timespec` keep the time, and the nanoseconds stay below a second.
use iouring_cc.Common.{ℕ, ◌+◌, ◌*◌, ◌/◌, ◌%◌, ◌^◌, ◌<◌, ◌≡◌, refl, some, arith}
use iouring_cc.Common.Int.{pos}
use iouring_cc.Time.{Timespec, usec_to_timespec, msec_to_timespec, chrono_to_kts, nsec_per_sec}

-- A time of so many nanoseconds, in seconds and a rest below one second.
abbrev pub Holds : Timespec → ℕ → Type 0
Holds ts n =
    (s : ℕ) × (r : ℕ) × (ts.tv_sec ≡ some (pos s))
    × (ts.tv_nsec ≡ some (pos r))
    × (r < nsec_per_sec)
    × (s * nsec_per_sec + r ≡ n)

-- Below 2^63 microseconds nothing wraps, and the time is kept.
usec_to_timespec-Holds : (n : ℕ) → n < 2 ^ 63 → Holds (usec_to_timespec n) (n * 1000)
unfolding usec_to_timespec
usec_to_timespec-Holds n h =
    (n / 1_000_000, n % 1_000_000 * 1000, ground arith, ground arith, omega arith, omega arith)

-- Below 2^63 milliseconds nothing wraps, and the time is kept.
msec_to_timespec-Holds : (n : ℕ) → n < 2 ^ 63 → Holds (msec_to_timespec n) (n * 1_000_000)
unfolding msec_to_timespec
msec_to_timespec-Holds n h =
    (n / 1000, n % 1000 * 1_000_000, ground arith, ground arith, omega arith, omega arith)

-- A duration of no less than 0 nanoseconds is kept.
chrono_to_kts-Holds : (n : ℕ) → Holds (chrono_to_kts (pos n)) n
unfolding chrono_to_kts
chrono_to_kts-Holds n = (n / nsec_per_sec, n % nsec_per_sec, refl, refl, omega arith, omega arith)

-- Below 2^63, the conversions of microseconds, of milliseconds and of a duration of no less than 0
-- nanoseconds keep the time, with a rest below one second.
pub conversions_keep_time :
    (n : ℕ)
    → n < 2 ^ 63
    → Holds (usec_to_timespec n) (n * 1000)
      × Holds (msec_to_timespec n) (n * 1_000_000)
      × Holds (chrono_to_kts (pos n)) n
conversions_keep_time n h =
    (usec_to_timespec-Holds n h, msec_to_timespec-Holds n h, chrono_to_kts-Holds n)
