-- ===== src/Time/Tests.antt =====
-- The conversions of concrete times.
use iouring_cc.Common.{◌*◌, ◌≡◌, refl, some, arith}
use iouring_cc.Common.Int.{pos, negsuc}
use iouring_cc.Time.{usec_to_timespec, msec_to_timespec, chrono_to_kts, floor_seconds, rem_seconds}
use iouring_cc.Time.Exact.{Holds, conversions_keep_time}

one_and_a_half :
    msec_to_timespec 1500 ≡ record { tv_sec = some (pos 1); tv_nsec = some (pos 500_000_000) }
unfolding msec_to_timespec
one_and_a_half = refl

-- A negative duration is rounded down to seconds, and its rest is negative too.
half_before :
    chrono_to_kts (negsuc 499_999_999)
    ≡ record { tv_sec = some (negsuc 0); tv_nsec = some (negsuc 499_999_999) }
unfolding chrono_to_kts floor_seconds rem_seconds
half_before = refl

conversions_keep_time_example :
    Holds (usec_to_timespec 1500) (1500 * 1000)
    × Holds (msec_to_timespec 1500) (1500 * 1_000_000)
    × Holds (chrono_to_kts (pos 1500)) 1500
conversions_keep_time_example = conversions_keep_time 1500 (omega arith)
