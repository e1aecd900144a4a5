-- ===== src/Target/Items.antt =====
-- src/arch/direct.rs and src/arch/mod.rs: the items of one name that a target compiles, in source
-- order. A crate compiles if exactly one item of the name is left.
use hotclock.Prelude.{Bool, true, false, not, ◌&&◌, ◌||◌, List, [], ◌∷◌}
use hotclock.Target.{
  Target, x86_64, x86, aarch64, riscv64, loongarch64, macos, windows, wasi, on_arch, on_os, on_unix,
  on_wasm_host, on_x86_direct,
}

-- the function that an item of `ticks` or `ticks_ordered` calls
pub data Reader : Type 0 where
  rdtsc_x86_64 rdtsc_x86 cntvct rdtime_riscv64 rdtime_loongarch64 wasm_ticks : Reader
  mach_time clock_monotonic wasi_clock_monotonic no_clock : Reader

-- the item of `read_frequency`
pub data FrequencyItem : Type 0 where
  cntfrq mach_timebase performance_frequency wasm_host_nanos wasi_nanos x86_cpuid calibrated :
      FrequencyItem

abbrev when {ℓ} : {A : Type ℓ} → Bool → A → List A → List A
when true a rest = a ∷ rest
when false a rest = rest

-- the condition on the last item of `ticks` and of `ticks_ordered`
abbrev no_direct_counter : Target → Bool
no_direct_counter t = not (
    on_arch t x86_64
    || on_arch t x86
    || on_arch t aarch64
    || on_arch t riscv64
    || on_arch t loongarch64
    || on_wasm_host t)

-- the blocks of that item, each under its own condition
abbrev fallback_readers : Target → List Reader → List Reader
fallback_readers t rest = when (on_os t macos) mach_time (
    when (on_unix t && not (on_os t macos)) clock_monotonic (
      when (on_os t wasi) wasi_clock_monotonic
        (when (not (on_unix t || on_os t macos || on_os t wasi)) no_clock rest)))

abbrev fallback_item : Bool → Target → List Reader
fallback_item true t = fallback_readers t []
fallback_item false t = []

unfoldable pub ticks_items : Target → List Reader
unfolding on_wasm_host
ticks_items t = when (on_arch t x86_64) rdtsc_x86_64 (
    when (on_arch t x86) rdtsc_x86 (
      when (on_arch t aarch64) cntvct (
        when (on_arch t riscv64) rdtime_riscv64 (
          when (on_arch t loongarch64) rdtime_loongarch64
            (when (on_wasm_host t) wasm_ticks (fallback_item (no_direct_counter t) t))))))

unfoldable pub ticks_ordered_items : Target → List Reader
unfolding on_wasm_host
ticks_ordered_items t = when (on_arch t x86_64) rdtsc_x86_64 (
    when (on_arch t x86) rdtsc_x86 (
      when (on_arch t aarch64) cntvct (
        when (on_arch t riscv64) rdtime_riscv64 (
          when (on_arch t loongarch64) rdtime_loongarch64
            (when (on_wasm_host t) wasm_ticks (fallback_item (no_direct_counter t) t))))))

unfoldable pub read_frequency_items : Target → List FrequencyItem
unfolding on_wasm_host on_x86_direct
read_frequency_items t = when (on_arch t aarch64) cntfrq (
    when (not (on_arch t aarch64) && on_os t macos) mach_timebase (
      when (not (on_arch t aarch64) && on_os t windows) performance_frequency (
        when (on_wasm_host t) wasm_host_nanos (
          when (on_os t wasi) wasi_nanos (
            when (on_x86_direct t) x86_cpuid (
              when
                (not (
                  on_arch t aarch64
                  || on_arch t x86_64
                  || on_arch t x86
                  || on_os t macos
                  || on_os t windows
                  || on_os t wasi
                  || on_wasm_host t))
                calibrated []))))))

-- what a call reaches: the one item that is left
abbrev pub reader : List Reader → Reader
reader [] = no_clock
reader (r ∷ rest) = r

abbrev pub frequency_item : List FrequencyItem → FrequencyItem
frequency_item [] = calibrated
frequency_item (i ∷ rest) = i
