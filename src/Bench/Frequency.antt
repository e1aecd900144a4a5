-- ===== src/Bench/Frequency.antt =====
-- src/bench.rs: the frequency that the report names, and whether CPUID leaf 15h gave it.
pub mod Reported
use hotclock.Prelude.{
  ℕ, ◌+◌, ◌*◌, ◌/◌, ◌≤◌, ◌<◌, ◌≡◌, Bool, true, false, Option, none, some, arith, ◌==◌, ◌&&◌,
  if◌then◌else◌, not, ◌||◌, refl,
}
use hotclock.Word.{u64_try_from}
use hotclock.Target.{on_arch, on_os, x86_64, x86, macos, windows}
use hotclock.Machine.{Machine, World, Run, ok, pure, ◌>>=◌}
use hotclock.Arch.X86_64
use hotclock.Arch.X86
use hotclock.Arch.Scale.{nanos_per_second_q32, nanos_per_tick_q32}

-- `unwrap_or(0)`
unwrap_or_zero : Option ℕ → ℕ
unwrap_or_zero none = 0
unwrap_or_zero (some hz) = hz

-- the frequency of a scale
unfoldable pub frequency_of_scale : ℕ → ℕ
unfolding unwrap_or_zero
frequency_of_scale q32 =
    if q32 == 0 then 0 else unwrap_or_zero (u64_try_from (nanos_per_second_q32 / q32))

unfoldable pub tach_freq_hz : Machine → Run ℕ
tach_freq_hz m = do q32 ← nanos_per_tick_q32 m; pure (frequency_of_scale q32)

-- `is_some`
is_some : Option ℕ → Bool
is_some none = false
is_some (some hz) = true

unfoldable pub tach_used_cpuid_15h : Machine → Bool
unfolding is_some
tach_used_cpuid_15h m =
    let direct = not (on_os m.target macos || on_os m.target windows) in
    if on_arch m.target x86_64 && direct
    then is_some (X86_64.cpuid_tsc_hz m.host)
    else if on_arch m.target x86 && direct
    then is_some (X86.cpuid_tsc_hz m.host)
    else false
