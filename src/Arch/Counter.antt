-- ===== src/Arch/Counter.antt =====
-- src/arch/direct.rs: `ticks` and `ticks_ordered`, which read the counter that the target selects.
pub mod Agreement
use hotclock.Prelude.{ℕ}
use hotclock.Target.Items.{Reader, ticks_items, ticks_ordered_items, reader}
use hotclock.Machine.{Host, Machine, Run, no_clock_source, panics, observe}
use hotclock.Arch.X86_64
use hotclock.Arch.X86
use hotclock.Arch.Registers
use hotclock.Arch.Fallback

-- the value of the counter at the k-th read
unfoldable pub counter_value : Host → Reader → ℕ → ℕ
counter_value h Reader.rdtsc_x86_64 = X86_64.rdtsc h
counter_value h Reader.rdtsc_x86 = X86.rdtsc h
counter_value h Reader.cntvct = Registers.cntvct h
counter_value h Reader.rdtime_riscv64 = Registers.rdtime h
counter_value h Reader.rdtime_loongarch64 = Registers.rdtime_d h
counter_value h Reader.wasm_ticks = Registers.wasm_ticks h
counter_value h Reader.mach_time = Fallback.mach_time h
counter_value h Reader.clock_monotonic = Fallback.clock_monotonic h
counter_value h Reader.wasi_clock_monotonic = Fallback.wasi_clock_monotonic h
counter_value h Reader.no_clock = λ k. 0

unfoldable pub counter_value_ordered : Host → Reader → ℕ → ℕ
counter_value_ordered h Reader.rdtsc_x86_64 = X86_64.rdtsc_ordered h
counter_value_ordered h Reader.rdtsc_x86 = X86.rdtsc_ordered h
counter_value_ordered h Reader.cntvct = Registers.cntvct_ordered h
counter_value_ordered h Reader.rdtime_riscv64 = Registers.rdtime_ordered h
counter_value_ordered h Reader.rdtime_loongarch64 = Registers.rdtime_d_ordered h
counter_value_ordered h Reader.wasm_ticks = Registers.wasm_ticks h
counter_value_ordered h Reader.mach_time = Fallback.mach_time h
counter_value_ordered h Reader.clock_monotonic = Fallback.clock_monotonic h
counter_value_ordered h Reader.wasi_clock_monotonic = Fallback.wasi_clock_monotonic h
counter_value_ordered h Reader.no_clock = λ k. 0

-- a read, or the panic of the target that has no clock
unfoldable pub read_counter : (Reader → ℕ → ℕ) → Reader → Run ℕ
read_counter value Reader.no_clock = panics no_clock_source
read_counter value r = observe (value r)

unfoldable pub ticks : Machine → Run ℕ
unfolding read_counter
ticks m = read_counter (counter_value m.host) (reader (ticks_items m.target))

unfoldable pub ticks_ordered : Machine → Run ℕ
unfolding read_counter
ticks_ordered m =
    read_counter (counter_value_ordered m.host) (reader (ticks_ordered_items m.target))
