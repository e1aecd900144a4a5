-- ===== src/Target/Dispatch.antt =====
-- src/arch/mod.rs, src/arch/direct.rs, src/lib.rs: what the `cfg` conditions select on each target.
use hotclock.Prelude.{◌≡◌, Bool, true, false, not, ◌&&◌, ◌||◌, ◌↔◌, ◌⊎◌, ◌≢◌, [], ◌∷◌, arith}
use hotclock.Target.{
  Target, x86_64, x86, aarch64, riscv64, loongarch64, wasm32, macos, windows, wasi, on_wasm_host,
  on_arch, on_os, on_unix, calibration_enabled, clock_monotonic_enabled, on_x86_direct,
}
use hotclock.Target.Items.{
  Reader, rdtsc_x86_64, rdtsc_x86, cntvct, wasm_ticks, mach_time, wasi_clock_monotonic,
  FrequencyItem, cntfrq, mach_timebase, wasm_host_nanos, wasi_nanos, x86_cpuid, calibrated,
  ticks_items, ticks_ordered_items, read_frequency_items, reader, frequency_item,
}

-- Every target compiles exactly one item of `ticks` and exactly one of `ticks_ordered`, and the
-- two are the items of the same counter.
pub ticks_items-one :
    (t : Target)
    → (ticks_items t ≡ reader (ticks_items t) ∷ []) × (ticks_ordered_items t ≡ ticks_items t)
unfolding ticks_items ticks_ordered_items
ticks_items-one t = ground arith

-- Every target compiles exactly one item of `read_frequency`, if its system is WASI only on wasm32.
pub read_frequency_items-one :
    (t : Target)
    → (t.os ≡ wasi → t.arch ≡ wasm32)
    → read_frequency_items t ≡ frequency_item (read_frequency_items t) ∷ []
unfolding read_frequency_items
read_frequency_items-one t h = ground arith

-- Whether the frequency that an item reports is that of the reader's counter, by the documentation
-- of the registers and calls: `cntfrq_el0` is the rate of `cntvct_el0`, the Mach timebase that of
-- `mach_absolute_time`, CPUID leaf 15h that of the TSC, the two constants are those of clocks that
-- count nanoseconds, and a calibration measures whatever `ticks` reads. No reader reads
-- `QueryPerformanceCounter`.
pub rates : FrequencyItem → Reader → Bool
rates cntfrq cntvct = true
rates mach_timebase mach_time = true
rates wasm_host_nanos wasm_ticks = true
rates wasi_nanos wasi_clock_monotonic = true
rates x86_cpuid rdtsc_x86_64 = true
rates x86_cpuid rdtsc_x86 = true
rates calibrated r = true
rates _ _ = false

-- the targets on which the frequency is that of another clock than the one `ticks` reads
abbrev pub IsMismatched : Target → Type 0
IsMismatched t =
    ((t.os ≡ windows) × (t.arch ≢ aarch64))
    ⊎ ((t.os ≡ macos)
        × ((t.arch ≡ x86_64) ⊎ (t.arch ≡ x86) ⊎ (t.arch ≡ riscv64) ⊎ (t.arch ≡ loongarch64)))

-- If its system is WASI only on wasm32, a target scales ticks by the frequency of the very counter
-- that `ticks` reads, unless it is Windows on anything but aarch64, or macOS on an architecture
-- whose counter is read directly, aarch64 excepted: there, and only there, the two belong to
-- different clocks.
pub rates_iff :
    (t : Target)
    → (t.os ≡ wasi → t.arch ≡ wasm32)
    → (rates (frequency_item (read_frequency_items t)) (reader (ticks_items t)) ≡ false)
      ↔ IsMismatched t
unfolding rates ticks_items read_frequency_items
rates_iff t h = ground arith

-- the items whose body names the module `calibration`
abbrev pub calls_calibration : FrequencyItem → Bool
calls_calibration x86_cpuid = true
calls_calibration calibrated = true
calls_calibration _ = false

-- If its system is WASI only on wasm32, a target on which `read_frequency` or `recalibrate` calls
-- the calibration compiles that module; and the module's own call of `clock_monotonic` is left
-- without a definition exactly on the targets that are not Unix and none of the listed platforms
-- (aarch64, Windows, WASI, the wasm host).
pub calibration_resolves :
    (t : Target)
    → (t.os ≡ wasi → t.arch ≡ wasm32)
    → (((calls_calibration (frequency_item (read_frequency_items t)) || on_x86_direct t) ≡ true)
        → calibration_enabled t ≡ true)
      × (((calibration_enabled t && not (clock_monotonic_enabled t)) ≡ true) ↔ (
          (on_unix t || on_arch t aarch64 || on_os t windows || on_os t wasi || on_wasm_host t)
          ≡ false))
unfolding read_frequency_items calibration_enabled clock_monotonic_enabled
calibration_resolves t h = ground arith
