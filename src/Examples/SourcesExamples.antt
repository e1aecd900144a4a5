-- ===== src/Examples/SourcesExamples.antt =====
-- The clock sources of src/bench.rs on a Linux x86_64 host of 3 GHz.
use hotclock.Prelude.{ℕ, ◌+◌, ◌-◌, ◌*◌, ◌≡◌, ◌≢◌, refl, arith, min, true, none, some, length}
use hotclock.Duration.{from_nanos}
use hotclock.Target.{on_x86_direct}
use hotclock.Target.Items.{ticks_items, read_frequency_items, no_clock}
use hotclock.Machine.{World, ok, next_event, at_event}
use hotclock.Arch.X86_64
use hotclock.Arch.Counter.{counter_value}
use hotclock.Arch.Frequency.{read_frequency}
use hotclock.Arch.Race.Progress.{Answers}
use hotclock.Calibration.Spin.{ticks_reader, ticks_at_event}
use hotclock.Instant.{from_raw_ticks}
use hotclock.Bench.Skew.{SkewFigures}
use hotclock.Bench.PerThread.{Tally, measure_per_thread}
use hotclock.Bench.Sources.{Crate, tach_instant}
use hotclock.Bench.Sources.Anchored.{Statics, measure_skew_of, measure_skew_of_lem}
use hotclock.Bench.Sources.Answering.{tach_instant-Answering}
use hotclock.Bench.Sources.Steady.{tach_subject, measure_per_thread-tach_subject}
use hotclock.Examples.Hosts.{whole_numbers, nominal, world}

nominal_has_clock : ticks_reader nominal ≢ no_clock
unfolding ticks_items
nominal_has_clock = λ e. cc

nominal-Answers : Answers nominal
unfolding read_frequency X86_64.cpuid_tsc_hz on_x86_direct read_frequency_items
nominal-Answers w = (3_000_000_000, w, refl, omega arith)

-- a clock of the system that reads the number of the event, 5 ms apart
abbrev system : Crate
system = record {
  I = ℕ;
  now = λ w. ok w.event (next_event w);
  duration_since = λ later earlier. from_nanos (5_000_000 * (later - earlier));
}

abbrev asleep : World → World
asleep w = at_event w (w.event + 200)

abbrev untaken : Statics (tach_instant nominal) system
untaken = record { anchor = none; ref_anchor = some 3 }

measure_skew_of_lem_example :
    (a : (tach_instant nominal).Anchor) × (r : ℕ) × (result : SkewFigures) × (w' : World)
    × (measure_skew_of (tach_instant nominal) system asleep 2 untaken (world 10 0)
        ≡ ok (record { anchor = some a; ref_anchor = some r }, some result) w')
    × (length result.samples ≡ 2)
    × Unit {0}
    × (3 ≡ r)
measure_skew_of_lem_example =
    measure_skew_of_lem (tach_instant nominal) system asleep 2 untaken (world 10 0)
      (tach_instant-Answering nominal nominal-Answers nominal_has_clock system
        (λ w. (w.event, next_event w, refl))).0
      (omega arith)

-- the first 70 000 reads of the counter
abbrev early : ℕ → ℕ
early k = min k 70_000

early_ticks : (k : ℕ) → ticks_at_event nominal (early k) ≡ 15_000_000 * min k 70_000
unfolding counter_value X86_64.rdtsc ticks_items
early_ticks k = omega arith

measure_per_thread-tach_subject_example :
    (t : Tally) × (measure_per_thread
        (tach_subject nominal (world 0 1431655765) (from_raw_ticks 0) early (λ k. true) 65_536)
      ≡ some t)
    × (t.violations ≡ 0)
    × (t.max_violation_ns ≡ 0)
measure_per_thread-tach_subject_example =
    measure_per_thread-tach_subject nominal (world 0 1431655765) (from_raw_ticks 0) early
      (λ k. true) 65_536 65_536 nominal_has_clock (omega arith) (omega arith)
      (λ k. omega (arith, early_ticks k)) (λ i j h. omega (arith, early_ticks i, early_ticks j))
      (omega arith) refl (omega arith) (omega arith) refl
