-- ===== src/Arch/Frequency/Frame.antt =====
-- src/arch/mod.rs: `read_frequency` reads the host and changes no static.
use hotclock.Prelude.{ℕ, Option, none, some, ◌==◌}
use hotclock.Target.{on_arch, x86_64}
use hotclock.Target.Items.{FrequencyItem, read_frequency_items, frequency_item}
use hotclock.Machine.{Machine, divide_by_zero}
use hotclock.Machine.Frame.{OnlyReads, OnlyReads-pure, OnlyReads-if, OnlyReads-panics}
use hotclock.Calibration.Frame.{calibrate_frequency-OnlyReads}
use hotclock.Arch.X86_64
use hotclock.Arch.X86
use hotclock.Arch.Frequency.{or_calibrate, frequency_of, read_frequency}

or_calibrate-OnlyReads : (m : Machine) (o : Option ℕ) → OnlyReads (or_calibrate m o)
unfolding or_calibrate
or_calibrate-OnlyReads m none = calibrate_frequency-OnlyReads m
or_calibrate-OnlyReads m (some hz) = OnlyReads-pure hz

frequency_of-OnlyReads : (m : Machine) (i : FrequencyItem) → OnlyReads (frequency_of m i)
unfolding frequency_of
frequency_of-OnlyReads m FrequencyItem.cntfrq = OnlyReads-pure _
frequency_of-OnlyReads m FrequencyItem.mach_timebase =
    OnlyReads-if (m.host.mach_timebase_info.numer == 0) _ _ (OnlyReads-panics divide_by_zero)
      (OnlyReads-pure _)
frequency_of-OnlyReads m FrequencyItem.performance_frequency = OnlyReads-pure _
frequency_of-OnlyReads m FrequencyItem.wasm_host_nanos = OnlyReads-pure _
frequency_of-OnlyReads m FrequencyItem.wasi_nanos = OnlyReads-pure _
frequency_of-OnlyReads m FrequencyItem.x86_cpuid =
    OnlyReads-if (on_arch m.target x86_64) _ _
      (or_calibrate-OnlyReads m (X86_64.cpuid_tsc_hz m.host))
      (or_calibrate-OnlyReads m (X86.cpuid_tsc_hz m.host))
frequency_of-OnlyReads m FrequencyItem.calibrated = calibrate_frequency-OnlyReads m

pub read_frequency-OnlyReads : (m : Machine) → OnlyReads (read_frequency m)
unfolding read_frequency
read_frequency-OnlyReads m =
    frequency_of-OnlyReads m (frequency_item (read_frequency_items m.target))
