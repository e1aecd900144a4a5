-- ===== src/Arch/Frequency.antt =====
-- src/arch/mod.rs: `read_frequency`, one item for each kind of target.
pub mod Frame
use hotclock.Prelude.{ℕ, ◌*◌, ◌/◌, ◌%◌, Option, none, some, ◌==◌, ◌||◌, if◌then◌else◌}
use hotclock.Word.{u64_mod}
use hotclock.Target.{Target, Arch, on_arch, x86_64}
use hotclock.Target.Items.{FrequencyItem, read_frequency_items, frequency_item}
use hotclock.Machine.{Machine, MachTimebaseInfo, Run, pure, panics, divide_by_zero}
use hotclock.Arch.X86_64
use hotclock.Arch.X86
use hotclock.Arch.Registers
use hotclock.Calibration.{calibrate_frequency}

-- `1_000_000_000 * denom / numer`
mach_frequency : MachTimebaseInfo → Run ℕ
mach_frequency info =
    if info.numer == 0
    then panics divide_by_zero
    else pure (1_000_000_000 * info.denom % u64_mod / info.numer)

-- CPUID leaf 15h if it is usable, the calibration otherwise
or_calibrate : Machine → Option ℕ → Run ℕ
or_calibrate m none = calibrate_frequency m
or_calibrate m (some hz) = pure hz

x86_frequency : Machine → Run ℕ
unfolding or_calibrate
x86_frequency m =
    if on_arch m.target x86_64
    then or_calibrate m (X86_64.cpuid_tsc_hz m.host)
    else or_calibrate m (X86.cpuid_tsc_hz m.host)

frequency_of : Machine → FrequencyItem → Run ℕ
unfolding mach_frequency x86_frequency
frequency_of m FrequencyItem.cntfrq = pure (Registers.cntfrq m.host)
frequency_of m FrequencyItem.mach_timebase = mach_frequency m.host.mach_timebase_info
frequency_of m FrequencyItem.performance_frequency = pure m.host.query_performance_frequency
frequency_of m FrequencyItem.wasm_host_nanos = pure 1_000_000_000
frequency_of m FrequencyItem.wasi_nanos = pure 1_000_000_000
frequency_of m FrequencyItem.x86_cpuid = x86_frequency m
frequency_of m FrequencyItem.calibrated = calibrate_frequency m

unfoldable pub read_frequency : Machine → Run ℕ
unfolding frequency_of
read_frequency m = frequency_of m (frequency_item (read_frequency_items m.target))
