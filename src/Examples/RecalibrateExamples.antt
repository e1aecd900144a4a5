-- ===== src/Examples/RecalibrateExamples.antt =====
-- src/lib.rs, the tests that recalibrate, and `elapsed` after a recalibration: a TSC of 3 GHz that
-- is read every 10 µs.
use hotclock.Prelude.{◌+◌, ◌-◌, ◌*◌, ◌%◌, ◌≡◌, ◌≢◌, refl, arith}
use hotclock.Word.{u64_mod}
use hotclock.Duration.{Duration, as_nanos}
use hotclock.Target.{on_x86_direct}
use hotclock.Target.Items.{no_clock, ticks_items}
use hotclock.Machine.{Machine, World, ok, at_event, next_event}
use hotclock.Arch.X86_64 as X86_64
use hotclock.Arch.Fallback as Fallback
use hotclock.Arch.Counter.{counter_value}
use hotclock.Arch.Scale.{recalibrate}
use hotclock.Calibration.Spin.{ticks_reader, ticks_at_event, ClockMovesOn}
use hotclock.Calibration.Accuracy.{IsSteady}
use hotclock.Instant.{from_raw_ticks, elapsed}
use hotclock.Instant.Accuracy.{IsTime}
use hotclock.Instant.Recalibrated.{Soon, elapsed_after_recalibrate}
use hotclock.UnitTests.{Passes, Sleep, recalibrate_does_not_perturb}
use hotclock.UnitTests.Recalibrating.{recalibrate_does_not_perturb-Passes}
use hotclock.Examples.Hosts.{no_leaf, host, calibrating, world}

abbrev finer : Machine
finer = record calibrating {
  host = record (host no_leaf) {
    rdtsc_intrinsic = λ k. 30_000 * k % u64_mod;
    clock_gettime = λ k. record { tv_sec = 0; tv_nsec = 10_000 * k };
  };
  spins = 1_200;
}

finer_has_clock : ticks_reader finer ≢ no_clock
unfolding ticks_items
finer_has_clock e = cc e

finer_moves_on : ClockMovesOn finer
unfolding Fallback.clock_monotonic
finer_moves_on e = (e + 1_000, omega arith, omega arith, omega arith)

finer-IsSteady : IsSteady finer 3_000_000_000 10_000 0
unfolding Fallback.clock_monotonic counter_value ticks_items X86_64.rdtsc
finer-IsSteady = record {
  fast = λ i j a b. omega arith;
  slow = λ i j a b. omega arith;
  adds = λ i j k a b c. omega arith;
  close = λ i. omega arith;
}

-- 20 ms
abbrev asleep : Sleep
asleep d w = at_event w (w.event + 2_000)

elapsed_after_recalibrate_example :
    (w' : World) × (d : Duration) × (recalibrate finer (world 40 17) ≡ ok tt w')
    × Soon finer 40 w'.event
    × (elapsed finer (from_raw_ticks 900_000) w' ≡ ok d (next_event w'))
    × IsTime 3_000_000_000 10_000 0 (ticks_at_event finer w'.event - 900_000) (as_nanos d)
unfolding counter_value ticks_items X86_64.rdtsc on_x86_direct
elapsed_after_recalibrate_example =
    elapsed_after_recalibrate finer (world 40 17) (from_raw_ticks 900_000) 3_000_000_000 10_000 0
      refl finer_has_clock finer_moves_on finer-IsSteady (omega arith) (omega arith) (omega arith)
      (λ k soon. (omega arith, omega arith))

recalibrate_does_not_perturb-Passes_example :
    Passes (recalibrate_does_not_perturb finer asleep (world 40 17))
unfolding counter_value ticks_items X86_64.rdtsc on_x86_direct
recalibrate_does_not_perturb-Passes_example =
    recalibrate_does_not_perturb-Passes finer (world 40 17) asleep 2_041 3_000_000_000 10_000 0 refl
      finer_has_clock finer_moves_on finer-IsSteady (omega arith) (omega arith) (omega arith) refl
      (λ k soon. (omega arith, omega arith, omega arith, omega arith))
