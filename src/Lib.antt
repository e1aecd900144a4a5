-- ===== src/Lib.antt =====
-- The crate `tach`: `Instant` and `OrderedInstant`, time stamps taken straight from the
-- processor's counter, with an API like that of `std::time::Instant`.
--
-- Parts and files. Paths of the source are from the root of the repository.
--
-- - src/instant.rs, the public API. Convert.antt models the fixed-point conversion (`nanos_at`
--   and `duration_at` are `ticks_to_duration` after its load of the scale, `ticks_at` is
--   `duration_to_ticks` after it), with its bounds in Convert/Bounds.antt, its round trips in
--   Convert/RoundTrip.antt and the two functions with the load in Convert/Cached.antt.
--   Instant.antt has one function per method and operator of `Instant`, Instant/Ordered.antt
--   those of `OrderedInstant`; Instant/Laws.antt, Instant/Arithmetic.antt and
--   Instant/Ordered/Mirror.antt hold what they promise together, Instant/Accuracy.antt and
--   Instant/Recalibrated.antt how far `elapsed` is off the time, from the calibration to the
--   nanoseconds returned.
-- - The `cfg` conditions of src/lib.rs, src/arch/mod.rs, src/arch/direct.rs and
--   src/arch/fallback.rs: Target.antt. Target/Items.antt lists, for a target, the items of each
--   name that it compiles, in source order; Target/Dispatch.antt is about these lists.
-- - src/arch/x86_64.rs, x86.rs, aarch64.rs, riscv64.rs, loongarch64.rs, wasm.rs and fallback.rs:
--   Arch/X86_64.antt, Arch/X86.antt, Arch/Registers.antt and Arch/Fallback.antt. `ticks` and
--   `ticks_ordered` of src/arch/direct.rs: Arch/Counter.antt. Arch/Order.antt has their `asm!`
--   blocks as instructions in program order, and the orders that a compiler and a processor may
--   make of them.
-- - src/arch/mod.rs: `read_frequency` in Arch/Frequency.antt, `nanos_per_tick_q32` and
--   `recalibrate` in Arch/Scale.antt, with their accuracy, their cache and their effects in
--   Arch/Scale; threads that race inside the two, in Arch/Race.antt, with the lock of the start
--   of the background thread in Arch/Race/Lock.antt and the steps a call takes, and what it can
--   wait for, in Arch/Race/Progress.antt; Arch/Race/Solo.antt has a whole call as a run of these
--   steps.
-- - src/calibration.rs: Calibration.antt; the sort and median in Calibration/Median.antt, the
--   spin loop in Calibration/Spin.antt, the accuracy in Calibration/Accuracy.antt.
-- - src/background.rs: Background.antt, and Background/Loop.antt, the program's calls and the
--   background thread as a step relation.
-- - src/bench.rs: Bench/Frequency.antt (`tach_freq_hz`, `tach_used_cpuid_15h`),
--   Bench/PerThread.antt (`measure_per_thread`, the loop over the reads of one clock),
--   Bench/CrossThread.antt (`measure_cross_thread`, the rounds of the threads in the order of
--   their `fetch_max`), Bench/CrossThread/Interleaved.antt (the same threads step by step, as
--   they interleave at the flag, the clock and the maximum), Bench/Skew.antt (`measure_skew` on
--   its reads) and Bench/Sources.antt (the clocks that implement `ClockSource`);
--   Bench/Sources/Anchored.antt has `measure_skew` with its reads of these clocks, and
--   Bench/Sources/Steady.antt `measure_per_thread` of the clock `tach`. Bench/Results.antt has
--   the structs that the three measurements return.
-- - benches/skew.rs, the program that runs the measurements: Skew/Args.antt (`parse_args`) and
--   Skew/Clocks.antt (`run_clock`, `run_for` and the loop of `main`), whose record `Bench` is
--   what it calls of src/bench.rs; Skew/Clocks/Recorded.antt fills it with the measurements for
--   given readings. Skew/Commands.antt has `read_cpu_model` and `read_kernel`, with the
--   functions on strings that they call, and Skew/Program.antt is `main`, from the arguments to
--   the report that is printed or written.
-- - The tests of src/lib.rs are programs over the model in UnitTests.antt, with a failed
--   assertion as a panic: UnitTests/Advances.antt, UnitTests/Sleeping.antt,
--   UnitTests/Comparing.antt, UnitTests/Arithmetic.antt, UnitTests/Mirrors.antt and
--   UnitTests/Recalibrating.antt say when they pass. examples/basic.rs is BasicExample.antt.
-- - Prelude.antt, Word.antt and Duration.antt are shared: the names of the libraries, Rust's u64
--   and u128 operations and f64 in Word/Floats.antt, and `core::time::Duration`. Examples.antt
--   runs the code at concrete inputs.
--
-- State. Machine.antt has the record `World`: the statics NANOS_PER_TICK_Q32, INTERVAL_SECS and
-- THREAD, the number of background threads, and `event`, the number of reads of the host made so
-- far. A function that reads the host or a static is a `Run`: from a world it returns a value
-- and a new world, panics, or is still spinning. `Host` has one function for each instruction,
-- register and system call that the source uses, from the number of the read to what it returns:
-- the hardware and the system are parameters, and a theorem that relies on their behaviour has
-- it as a hypothesis (`IsSteady` and `ClockMovesOn` on the counter and the clock,
-- `SplitsTsc` and `IsCpuid` on the instructions `rdtsc` and `cpuid`; `Documented` on what a
-- compiler keeps around an `asm!` block and what a barrier waits for; `Answers` on a frequency
-- that a read delivers; `Answering` on clocks that return, which Bench/Sources/Answering.antt
-- proves of the crate's own).
--
-- Integers are natural numbers with the wrap-around, saturation and checks of the operation
-- written out, as in a release build, where overflow wraps, on a target whose usize has 64 bits.
-- Arch/Scale.antt and Background/Loop.antt take a call as one step; Arch/Race.antt splits it at
-- each access to a static; `OnceLock::get_or_init`, which blocks while another thread runs its
-- closure, is there the begin and the end of the closure, and the lock between them.
--
-- Fuel. The loop that waits for 10 ms is followed for `spins` rounds, a field of `Machine`.
-- `ClockMovesOn` says that at any time the clock passes 10 ms within that many reads; with it
-- the loop ends. The loop of `measure_per_thread` is followed for `rounds` rounds of its
-- `Subject`; it needs no more than a multiple of 2^16 rounds after which the time is up. Every
-- other loop is structural.
--
-- Not modelled: the text of panic messages, traits derived by the compiler, the start barrier
-- and the warm-up of the threads, the progress messages of benches/skew.rs, the wall clock, what
-- the commands that name the host print and the JSON text of the report (parameters), and
-- benches/instant.rs, which only registers calls of the crate. Of the tests of src/lib.rs, the
-- one on `Send` and `Sync` is decided by Rust's compiler, and the one on CPUID drops what it
-- reads. The arithmetic on f64 in src/arch/wasm.rs and `measure_skew` is a parameter, the record
-- `F64` of Word/Floats.antt on the bits of the numbers.
pub mod Prelude
pub mod Word
pub mod Duration
pub mod Convert
pub mod Target
pub mod Machine
pub mod Arch
pub mod Calibration
pub mod Background
pub mod Instant
pub mod Bench
pub mod Skew
pub mod UnitTests
pub mod BasicExample
pub mod Examples
