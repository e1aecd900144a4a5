-- ===== src/Examples/ElapsedExamples.antt =====
-- A machine that reads its clocks every 0.1 ms, and the first `elapsed` on it.
use hotclock.Prelude.{◌+◌, ◌*◌, ◌%◌, ◌≡◌, ◌≢◌, refl, arith}
use hotclock.Word.{u64_mod}
use hotclock.Duration.{Duration, as_nanos}
use hotclock.Target.Items.{no_clock, ticks_items, read_frequency_items}
use hotclock.Machine.{Machine, World, ok}
use hotclock.Arch.X86_64
use hotclock.Arch.Fallback
use hotclock.Arch.Counter.{counter_value}
use hotclock.Arch.Frequency.{read_frequency}
use hotclock.Calibration.{calibrate_frequency}
use hotclock.Calibration.Spin.{ticks_reader, ClockMovesOn}
use hotclock.Calibration.Accuracy.{IsSteady}
use hotclock.Instant.{from_raw_ticks, elapsed}
use hotclock.Instant.Accuracy.{IsTime, elapsed_accurate}
use hotclock.Examples.Hosts.{no_leaf, host, calibrating, world}

-- a TSC of 3 GHz
abbrev pub fine : Machine
fine = record calibrating {
  host = record (host no_leaf) {
    rdtsc_intrinsic = λ k. 300_000 * k % u64_mod;
    clock_gettime = λ k. record { tv_sec = 0; tv_nsec = 100_000 * k };
  };
  spins = 200;
}

pub fine_has_clock : ticks_reader fine ≢ no_clock
unfolding ticks_items
fine_has_clock e = cc e

pub fine_moves_on : ClockMovesOn fine
unfolding Fallback.clock_monotonic
fine_moves_on e = (e + 100, omega arith, omega arith, omega arith)

pub fine-IsSteady : IsSteady fine 3_000_000_000 100_000 0
unfolding Fallback.clock_monotonic counter_value ticks_items X86_64.rdtsc
fine-IsSteady = record {
  fast = λ i j a b. omega arith;
  slow = λ i j a b. omega arith;
  adds = λ i j k a b c. omega arith;
  close = λ i. omega arith;
}

pub fine_measured : (v : World) → read_frequency fine v ≡ calibrate_frequency fine v
unfolding read_frequency read_frequency_items X86_64.cpuid_tsc_hz
fine_measured v = refl

-- 3 ms after the instant
elapsed_accurate_example :
    (d : Duration) × (w' : World) × (elapsed fine (from_raw_ticks 0) (world 30 0) ≡ ok d w')
    × IsTime 3_000_000_000 100_000 0 9_000_000 (as_nanos d)
unfolding counter_value ticks_items X86_64.rdtsc
elapsed_accurate_example =
    elapsed_accurate fine (world 30 0) (from_raw_ticks 0) 3_000_000_000 100_000 0 fine_has_clock
      fine_moves_on fine-IsSteady (omega arith) (omega arith) fine_measured refl (omega arith)
      (omega arith)
