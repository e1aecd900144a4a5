-- ===== src/Examples/BenchExamples.antt =====
-- The measurements of src/bench.rs at concrete clocks and interleavings.
use hotclock.Prelude.{
  get_elem?, All, ℕ, ◌+◌, ◌*◌, ◌%◌, ◌^◌, ◌≤◌, ◌<◌, ◌≡◌, refl, arith, true, some, List, [], ◌∷◌,
  ◌==◌, if◌then◌else◌,
}
use hotclock.Machine.{ok}
use hotclock.Arch.Scale.{scale_of}
use hotclock.Word.{wrapping_sub}
use hotclock.Bench.Frequency.{tach_freq_hz}
use hotclock.Bench.Frequency.Reported.{tach_freq_hz_lem}
use hotclock.Bench.PerThread.{Subject, Tally, measure_per_thread}
use hotclock.Bench.PerThread.Largest.{IsReport, measure_per_thread_lem}
use hotclock.Bench.CrossThread.{
  Round, modify, add_counts, after_round, count_in, measure_cross_thread,
}
use hotclock.Bench.CrossThread.Runs.{count}
use hotclock.Bench.CrossThread.Totals.{largest, measure_cross_thread_lem}
use hotclock.Bench.CrossThread.Histogram.{sum, measure_cross_thread-histogram}
use hotclock.Bench.Skew.{
  SkewSample, Reads, SkewFigures, all_samples, signed, skews, measure_skew, sample, sort_unstable,
  result_at,
}
use hotclock.Bench.Skew.Order.{measure_skew_lem}
use hotclock.Bench.Skew.Ratios.{count_if, is_at_most, is_at_least, measure_skew_median}
use hotclock.Examples.Hosts.{whole_numbers, nominal, world}

-- a clock that falls back by a second once, and a budget that is used up from the start
abbrev falling : Subject
falling = record {
  now_as_u64 = λ k. if k == 1_010 then 1_000 else 1_000_000_000 + k;
  time_is_up = λ k. true;
  rounds = 65_536;
}

measure_per_thread_lem_example :
    (n : ℕ) × (t : Tally) × (measure_per_thread falling ≡ some t)
    × (0 < n)
    × (n ≤ 65_536)
    × (n % 2 ^ 16 ≡ 0)
    × IsReport falling n t
measure_per_thread_lem_example =
    measure_per_thread_lem falling 65_536 (omega arith) refl (omega arith) (omega arith) refl

-- two threads; the second reads once below the first's value, and is once preempted
abbrev racing : List Round
racing =
    record { thread = 0; r1 = 100; r2 = 110 }
    ∷ record { thread = 1; r1 = 70; r2 = 90 }
    ∷ record { thread = 1; r1 = 40; r2 = 20_000 }
    ∷ []

measure_cross_thread_lem_example :
    ((measure_cross_thread 2 racing).total_reads ≡ 3)
    × ((measure_cross_thread 2 racing).preemption_dropped ≡ 1)
    × ((measure_cross_thread 2 racing).total_violations ≡ 1)
    × ((measure_cross_thread 2 racing).max_violation_ns ≡ 30)
unfolding count largest
measure_cross_thread_lem_example =
    measure_cross_thread_lem 2 racing (omega arith, (omega arith, (omega arith, tt))) (omega arith)

measure_cross_thread-histogram_example :
    sum (measure_cross_thread 2 racing).violation_histogram
    ≡ (measure_cross_thread 2 racing).total_violations
measure_cross_thread-histogram_example =
    measure_cross_thread-histogram 2 racing (omega arith, (omega arith, (omega arith, tt)))
      (omega arith) (omega arith, (omega arith, (omega arith, tt)))

-- the histogram of the same interleaving
racing_histogram : (measure_cross_thread 2 racing).violation_histogram ≡ 1 ∷ 0 ∷ 0 ∷ 0 ∷ 0 ∷ []
unfolding measure_cross_thread modify add_counts after_round count_in
racing_histogram = refl

tach_freq_hz_lem_example :
    (hz : ℕ) × (tach_freq_hz nominal (world 4 1431655765) ≡ ok hz (world 4 1431655765))
    × (3_000_000_000 ≤ hz)
    × (hz * scale_of 3_000_000_000 ≤ 3_000_000_000 * scale_of 3_000_000_000 + 3_000_000_000)
unfolding scale_of
tach_freq_hz_lem_example =
    tach_freq_hz_lem nominal (world 4 1431655765) 3_000_000_000 (omega arith) (omega arith) refl

-- two rounds: 40 ns fast and 10 ns slow
abbrev rounds : List Reads
rounds =
    record { r_start = 0; c_start = 100; c_end = 1_140; r_end = 1_000 }
    ∷ record { r_start = 2_000; c_start = 2_100; c_end = 3_090; r_end = 3_000 }
    ∷ []

measure_skew_lem_example :
    (r : SkewFigures) × (measure_skew rounds ≡ some r)
    × (signed r.min_skew_ns ≤ signed r.median_skew_ns)
    × (signed r.median_skew_ns ≤ signed r.max_skew_ns)
    × All
        (λ z. (signed r.min_skew_ns ≤ signed z) × (signed z ≤ signed r.max_skew_ns))
        (skews r.samples)
measure_skew_lem_example = (measure_skew_lem rounds).1 (omega arith)

measure_skew_median_example :
    (r : SkewFigures) × (s : SkewSample) × (measure_skew rounds ≡ some r)
    × (r.samples ≡ all_samples rounds)
    × (1 < count_if (is_at_most r.median_skew_ns) (skews r.samples))
    × (2 ≤ 1 + count_if (is_at_least r.median_skew_ns) (skews r.samples))
    × (get_elem? r.samples 1 ≡ some s)
    × (r.median_skew_ppm ≡ s.skew_ppm)
measure_skew_median_example = measure_skew_median rounds (omega arith)

-- the ratio is that of the second round, which is slow, and the median skew that of the first
ratio_of_other_round :
    (r : SkewFigures) × (measure_skew rounds ≡ some r)
    × (r.median_skew_ns ≡ 40)
    × (get_elem? (skews r.samples) 1 ≡ some (wrapping_sub 0 10))
unfolding measure_skew all_samples sample skews sort_unstable result_at
ratio_of_other_round = (_, refl, refl, refl)
