-- ===== src/Arch/Fallback.antt =====
-- src/arch/fallback.rs: the clocks of the operating system, for targets with no counter of their
-- own and for the calibration. Sums and products on u64 wrap, as in a release build.
use hotclock.Prelude.{ℕ, ◌+◌, ◌*◌, ◌%◌}
use hotclock.Word.{u64_mod}
use hotclock.Machine.{Host}

unfoldable pub mach_time : Host → ℕ → ℕ
mach_time h k = h.mach_absolute_time k

unfoldable pub clock_monotonic : Host → ℕ → ℕ
clock_monotonic h k =
    let ts = h.clock_gettime k in (ts.tv_sec * 1_000_000_000 % u64_mod + ts.tv_nsec) % u64_mod

unfoldable pub wasi_clock_monotonic : Host → ℕ → ℕ
wasi_clock_monotonic h k = h.clock_time_get k
