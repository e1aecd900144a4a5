-- ===== src/Bench/Sources/Steady.antt =====
-- src/bench.rs: `measure_per_thread` of the clock `TachInstant`.
use hotclock.Prelude.{
  ℕ, ◌+◌, ◌-◌, ◌%◌, ◌^◌, ◌≤◌, ◌<◌, ◌≡◌, ◌≢◌, ap, arith, inl, inr, Bool, true, some,
}
use hotclock.Word.{u64_mod}
use hotclock.Duration.{as_nanos}
use hotclock.Target.Items.{no_clock}
use hotclock.Machine.{Machine, World, Outcome, ok, at_event}
use hotclock.Calibration.Spin.{ticks_reader, ticks_at_event}
use hotclock.Convert.{duration_at}
use hotclock.Convert.RoundTrip.{duration_at_mono}
use hotclock.Instant.{Instant}
use hotclock.Bench.Sources.{now_as_u64}
use hotclock.Bench.Sources.Monotone.{now_as_u64_set}
use hotclock.Bench.PerThread.{Subject, Tally, warmup, measure_per_thread}
use hotclock.Bench.PerThread.Largest.{read_number-eq, measure_per_thread_lem}
use hotclock.Bench.PerThread.Drops.{read_number, read_at}

-- the number that a run returns
abbrev pub number_of : Outcome ℕ → ℕ
number_of (ok n w) = n
number_of _ = 0

-- The clock with an anchor and a scale that stay: its read of number `k` is the read of the counter
-- of number `reads k`.
abbrev pub tach_subject : Machine → World → Instant → (ℕ → ℕ) → (ℕ → Bool) → ℕ → Subject
tach_subject m w anchor reads time_is_up rounds = record {
  now_as_u64 = λ k. number_of (now_as_u64 m anchor (at_event w (reads k)));
  time_is_up = time_is_up;
  rounds = rounds;
}

module _ (m : Machine) (w : World) (anchor : Instant) (reads : ℕ → ℕ) (time_is_up : ℕ → Bool)
    (rounds : ℕ) (clock : ticks_reader m ≢ no_clock) (pos : 0 < w.nanos_per_tick_q32)
    (fits : w.nanos_per_tick_q32 < u64_mod)
    (small : (k : ℕ) → ticks_at_event m (reads k) < u64_mod) where
  abbrev subject : Subject
  subject = tach_subject m w anchor reads time_is_up rounds

  subject-now :
      (k : ℕ)
      → subject.now_as_u64 k
        ≡ as_nanos (duration_at w.nanos_per_tick_q32 (ticks_at_event m (reads k) - anchor.raw))
  subject-now k =
      ap number_of (now_as_u64_set m (at_event w (reads k)) anchor clock pos fits (small k))

  subject_mono :
      (i j : ℕ)
      → ticks_at_event m (reads i) ≤ ticks_at_event m (reads j)
      → subject.now_as_u64 i ≤ subject.now_as_u64 j
  subject_mono i j forward = omega (
    arith,
    subject-now i,
    subject-now j,
    duration_at_mono w.nanos_per_tick_q32 (ticks_at_event m (reads i) - anchor.raw)
        (ticks_at_event m (reads j) - anchor.raw) fits (omega arith) (omega (arith, small j)),
  )

-- On a target that has a clock, with a u64 scale that is set and stays, and a counter, a u64, that
-- does not go back from one read of the loop to the next: `measure_per_thread` of the clock `tach`
-- ends, if the time is up after some multiple of 2^16 rounds, and reports no violation.
pub measure_per_thread-tach_subject :
    (m : Machine) (w : World) (anchor : Instant) (reads : ℕ → ℕ) (time_is_up : ℕ → Bool)
    (rounds limit : ℕ)
    → ticks_reader m ≢ no_clock
    → 0 < w.nanos_per_tick_q32
    → w.nanos_per_tick_q32 < u64_mod
    → ((k : ℕ) → ticks_at_event m (reads k) < u64_mod)
    → ((i j : ℕ) → i ≤ j → ticks_at_event m (reads i) ≤ ticks_at_event m (reads j))
    → 0 < limit
    → limit % 2 ^ 16 ≡ 0
    → limit ≤ rounds
    → limit + 1 < u64_mod
    → time_is_up (warmup + limit + 1) ≡ true
    → (t : Tally) × (measure_per_thread (tach_subject m w anchor reads time_is_up rounds) ≡ some t)
      × (t.violations ≡ 0)
      × (t.max_violation_ns ≡ 0)
measure_per_thread-tach_subject m w anchor reads time_is_up rounds limit clock pos fits small
      forward some_rounds whole enough counted up =
    let s = tach_subject m w anchor reads time_is_up rounds in
    let (n, t, e, _, _, _, report) =
      measure_per_thread_lem s limit some_rounds whole enough counted up in
    let rises : (i j : ℕ) → i ≤ j → j ≤ n → read_at s i ≤ read_at s j = λ i j h k.
      subject_mono m w anchor reads time_is_up rounds clock pos fits small (read_number i)
        (read_number j)
        (forward (read_number i) (read_number j)
          (omega (arith, read_number-eq i, read_number-eq j))) in
    (
      t,
      e,
      report.ascends.1 rises,
      elim report.attained [
        | inl z ↦ z
        | inr (i, j, h, k, drop) ↦ omega (arith, rises i j (omega arith) k)
      ],
    )
