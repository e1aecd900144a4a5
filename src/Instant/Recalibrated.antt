-- ===== src/Instant/Recalibrated.antt =====
-- src/instant.rs, src/arch/mod.rs and src/calibration.rs together: `elapsed` after a recalibration.
use native.Mathlib.Decide.{dec_lt}
use native.Mathlib.Nat.{suc-mul}
use hotclock.Prelude.{
  ℕ, zero, suc, ◌+◌, ◌-◌, ◌*◌, ◌≤◌, ◌<◌, ◌≡◌, ◌≢◌, refl, ap, sym, ◌∙◌, true, arith, List, [], ◌∷◌,
}
use hotclock.Word.{u64_mod}
use hotclock.Duration.{Duration, as_nanos}
use hotclock.Target.{on_x86_direct}
use hotclock.Target.Items.{no_clock}
use hotclock.Machine.{Machine, World, Outcome, ok, next_event, at_event}
use hotclock.Calibration.{calibration_time_ns, num_samples, samples, calibrate_frequency, median}
use hotclock.Calibration.Spin.{
  ticks_reader, ticks_at_event, ClockMovesOn, ticks-eq, reading, sample-returns,
}
use hotclock.Calibration.Accuracy.{IsSteady, calibrate_frequency_accurate}
use hotclock.Arch.Scale.{scale_of, nanos_per_second_q32, recalibrate}
use hotclock.Arch.Scale.Accuracy.{scale_of_bounds}
use hotclock.Arch.Scale.Cache.{stored, recalibrate_x86_lem}
use hotclock.Instant.{Instant, elapsed}
use hotclock.Instant.Laws.{wrapping_sub-le, ticks_to_duration-set}
use hotclock.Instant.Accuracy.{calibration_error, IsTime, duration_at-IsTime}
use hotclock.Convert.{duration_at}

samples_later :
    (n : ℕ) (m : Machine) (w : World)
    → ticks_reader m ≢ no_clock
    → ClockMovesOn m
    → (hs : List ℕ) × (k : ℕ) × (samples n m w ≡ ok hs (at_event w k))
      × (w.event ≤ k)
      × (k ≤ w.event + n * (m.spins + 5))
unfolding samples
samples_later zero m w clock moves = ([], w.event, refl, omega arith, omega arith)
samples_later (suc n) m w clock moves =
    let (j, window, e) = sample-returns m w clock moves in
    let (hs, k, es, later, soon) = samples_later n m (at_event w (j + 1 + 1 + 1)) clock moves in
    (
      reading m w.event j ∷ hs,
      k,
      rw (e, es),
      omega (arith, window.after, later),
      omega (arith, window.within, soon, suc-mul n (m.spins + 5)),
    )

-- a read that a calibration from read `e` on can end at
abbrev pub Soon : Machine → ℕ → ℕ → Type 0
Soon m e k = (e ≤ k) × (k ≤ e + 5 * (m.spins + 5))

-- a frequency that is not too high has a scale
scale_of-pos : (hz : ℕ) → 0 < hz → hz < nanos_per_second_q32 → 0 < scale_of hz
scale_of-pos hz pos small = elim (dec_lt 0 (scale_of hz)) [
  | yes p ↦ p
  | no none ↦
      let nothing : scale_of hz * hz ≡ 0 * hz = ap (λ (q : ℕ). q * hz) (omega arith) in
      absurd (omega (arith, nothing, (scale_of_bounds hz pos).1))
]

abbrev event_of : Outcome ℕ → ℕ
event_of (ok a w) = w.event
event_of _ = 0

-- the calibration makes at most so many reads
calibrate_frequency_later :
    (m : Machine) (w : World) (hz k : ℕ)
    → ticks_reader m ≢ no_clock
    → ClockMovesOn m
    → calibrate_frequency m w ≡ ok hz (at_event w k)
    → Soon m w.event k
unfolding calibrate_frequency
calibrate_frequency_later m w hz k clock moves e =
    let (hs, j, es, later, soon) = samples_later num_samples m w clock moves in
    let made : calibrate_frequency m w ≡ ok (median hs) (at_event w j) = rw es in
    let same : j ≡ k = ap event_of (sym made ∙ e) in
    (omega (arith, later, same), omega (arith, soon, same))

-- On an x86 target that reads its counter directly, with a counter of `f` ticks a second up to a
-- slack, reads at most `gap` nanoseconds apart, a clock that moves on within the rounds of a
-- spin loop, and an `f` above the calibration's error and, with the slack, below 2^32 * 10^9:
-- whatever the scale was, `recalibrate` returns within five times `spins + 5` reads, and so does
-- `elapsed` after it, of an instant that the u64 counter does not go back behind at any read up
-- to there. With `t` ticks passed since the instant, its nanoseconds exceed `t / f` seconds by
-- at most the part of them that the calibration's error is of `f`; and unless they are
-- saturated, they fall short by at most one nanosecond, `t / 2^32` of one and the slack.
pub elapsed_after_recalibrate :
    (m : Machine) (w : World) (self : Instant) (f gap slack : ℕ)
    → on_x86_direct m.target ≡ true
    → ticks_reader m ≢ no_clock
    → ClockMovesOn m
    → IsSteady m f gap slack
    → f < u64_mod
    → calibration_error f gap slack < f * calibration_time_ns
    → f * calibration_time_ns + slack < nanos_per_second_q32 * calibration_time_ns
    → ((k : ℕ)
        → Soon m w.event k
        → (self.raw ≤ ticks_at_event m k) × (ticks_at_event m k < u64_mod))
    → (w' : World) × (d : Duration) × (recalibrate m w ≡ ok tt w')
      × Soon m w.event w'.event
      × (elapsed m self w' ≡ ok d (next_event w'))
      × IsTime f gap slack (ticks_at_event m w'.event - self.raw) (as_nanos d)
unfolding elapsed
elapsed_after_recalibrate m w self f gap slack direct clock moves steady small sharp low ahead =
    let (hz, k, e, close) = calibrate_frequency_accurate m w f gap slack clock moves steady small in
    let pos : 0 < hz = omega arith in
    let scaled = scale_of-pos hz pos (omega arith) in
    let later = calibrate_frequency_later m w hz k clock moves e in
    let (behind, fits) = ahead k later in
    let w' = stored (scale_of hz) (at_event w k) in
    let t = ticks_at_event m k - self.raw in
    (
      w',
      duration_at (scale_of hz) t,
      (recalibrate_x86_lem m w (at_event w k) hz direct e).1 pos,
      later,
      rw (ticks-eq m w' clock, wrapping_sub-le _ _ fits behind)
          (ticks_to_duration-set m (next_event w') t scaled),
      duration_at-IsTime f gap slack hz t pos (omega arith) close,
    )
