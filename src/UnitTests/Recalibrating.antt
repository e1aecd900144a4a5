-- ===== src/UnitTests/Recalibrating.antt =====
-- src/lib.rs: the tests that recalibrate.
use native.Mathlib.Decide.{dec_lt}
use native.Mathlib.Nat.{mul-le-mul_left, le_of_mul-le-mul_right}
use hotclock.Prelude.{ℕ, ◌+◌, ◌-◌, ◌*◌, ◌^◌, ◌≤◌, ◌<◌, ◌≡◌, true, ◌≢◌, inl, inr, arith, Bool-cases}
use hotclock.Target.{on_x86_direct}
use hotclock.Target.Items.{no_clock}
use hotclock.Machine.{Machine, World, at_event, next_event}
use hotclock.Instant.Accuracy.{calibration_error, IsTime}
use hotclock.Instant.Recalibrated.{Soon, elapsed_after_recalibrate}
use hotclock.Calibration.{calibration_time_ns, calibrate_frequency, num_samples, median}
use hotclock.Calibration.Spin.{ticks_reader, ticks_at_event, ClockMovesOn, samples-return}
use hotclock.Arch.Scale.{recalibrate as recalibrate_scale}
use hotclock.Arch.Scale.Cache.{recalibrate_x86_lem}
use hotclock.Arch.Race.Progress.{Answers}
use hotclock.Instant.{from_raw_ticks, recalibrate}
use hotclock.Bench.Sources.Anchored.{Returns}
use hotclock.Bench.Sources.Answering.{now-Returns, elapsed-Returns}
use hotclock.UnitTests.{Passes, Sleep, within, recalibrate_repeatedly, recalibrate_does_not_perturb}
use hotclock.UnitTests.Known.{assert_iff, now_known}
use hotclock.Word.{u64_mod}
use hotclock.Duration.{Duration, as_nanos, from_millis}
use hotclock.Calibration.Accuracy.{IsSteady}

module _ (m : Machine) (clock : ticks_reader m ≢ no_clock) (moves : ClockMovesOn m) where
  calibrate_frequency-Returns : Returns (calibrate_frequency m)
  unfolding calibrate_frequency
  calibrate_frequency-Returns w =
      let (hs, k, e, _, _) =
        samples-return (λ _. Unit {0}) num_samples m w clock moves (λ _ _ _. tt) in
      (median hs, at_event w k, rw e)

  recalibrate-Returns : Returns (recalibrate m)
  unfolding recalibrate recalibrate_scale
  recalibrate-Returns w = elim (Bool-cases (on_x86_direct m.target)) [
    | inl direct ↦
        let (hz, w1, e) = calibrate_frequency-Returns w in
        let (skip, store) = recalibrate_x86_lem m w w1 hz direct e in
        elim (dec_lt 0 hz) [ yes pos ↦ (tt, _, store pos) | no none ↦ (tt, _, skip (omega arith)) ]
    | inr off ↦ (tt, w, rw off)
  ]

-- On a target that has a clock, where the clock of the system moves on and reading the frequency
-- returns one that is not 0: from every state of the statics, the test that recalibrates three
-- times returns.
pub recalibrate_repeatedly-Passes :
    (m : Machine) (w : World)
    → ticks_reader m ≢ no_clock
    → ClockMovesOn m
    → Answers m
    → Passes (recalibrate_repeatedly m w)
unfolding recalibrate_repeatedly
recalibrate_repeatedly-Passes m w clock moves answers =
    let (_, w1, e1) = recalibrate-Returns m clock moves w in
    let (_, w2, e2) = recalibrate-Returns m clock moves w1 in
    let (_, w3, e3) = recalibrate-Returns m clock moves w2 in
    let (t, w4, e4) = now-Returns m answers clock w3 in
    let (d, w5, e5) = elapsed-Returns m answers clock t w4 in rw (e1, e2, e3, e4, e5) tt

-- a duration within its calibration's error of a hundredth, of between 20 ms and 400 ms
within_error :
    (f gap slack t n : ℕ)
    → 0 < f
    → f ≤ 10 ^ 15
    → calibration_error f gap slack * 100 ≤ f * calibration_time_ns
    → f * 20_000_000 ≤ t * 1_000_000_000
    → t * 1_000_000_000 ≤ f * 400_000_000
    → IsTime f gap slack t n
    → (19_000_000 ≤ n) × (n < 500_000_000)
within_error f gap slack t n pos small sharp least most (above, below) =
    let x = f * calibration_time_ns in
    let err = calibration_error f gap slack in
    let upper : n * 99 ≤ 40_000_000_000 =
      le_of_mul-le-mul_right {k = x} (omega (arith, above, mul-le-mul_left n sharp))
        (omega arith) in
    elim below [
      | inl top ↦ absurd (omega (arith, top, upper))
      | inr long ↦
          let b = (n + 1) * 2 ^ 32 + t in
          let lower : 2_000_000_000 * 2 ^ 32 ≤ b * 101 =
            le_of_mul-le-mul_right {k = x} (omega (arith, long, mul-le-mul_left b sharp))
              (omega arith) in
          (omega arith, omega arith)
    ]

in_range :
    (d : Duration) → 19_000_000 ≤ as_nanos d → as_nanos d < 500_000_000 → within 19 500 d ≡ true
in_range d least most = ground arith

-- On an x86 target that reads its counter directly, with a counter of `f` ticks a second, from 1
-- to 10^15, up to a slack, reads at most `gap` nanoseconds apart, a clock that moves on within
-- the rounds of a spin loop, and a calibration's error of at most a hundredth of `f`: if at any
-- read that the calibration of the test can end at the counter is a u64, not behind the start of
-- the test, and the ticks since make between 20 ms and 400 ms, the test that sleeps for 20 ms
-- and recalibrates passes, whatever the scale was.
pub recalibrate_does_not_perturb-Passes :
    (m : Machine) (w : World) (sleep : Sleep) (e f gap slack : ℕ)
    → on_x86_direct m.target ≡ true
    → ticks_reader m ≢ no_clock
    → ClockMovesOn m
    → IsSteady m f gap slack
    → 0 < f
    → f ≤ 10 ^ 15
    → calibration_error f gap slack * 100 ≤ f * calibration_time_ns
    → sleep (from_millis 20) (next_event w) ≡ at_event w e
    → ((k : ℕ)
        → Soon m e k
        → (ticks_at_event m w.event ≤ ticks_at_event m k)
          × (ticks_at_event m k < u64_mod)
          × (f * 20_000_000 ≤ (ticks_at_event m k - ticks_at_event m w.event) * 1_000_000_000)
          × ((ticks_at_event m k - ticks_at_event m w.event) * 1_000_000_000 ≤ f * 400_000_000))
    → Passes (recalibrate_does_not_perturb m sleep w)
unfolding recalibrate_does_not_perturb recalibrate
recalibrate_does_not_perturb-Passes m w sleep e f gap slack direct clock moves steady pos small
      sharp slept timed =
    let start = ticks_at_event m w.event in
    let (w', d, done, soon, read, close) =
      elapsed_after_recalibrate m (at_event w e) (from_raw_ticks start) f gap slack direct clock
        moves steady (omega arith) (omega arith) (omega arith)
        (λ k soon. let (behind, fits, _, _) = timed k soon in (behind, fits)) in
    let (_, _, least, most) = timed w'.event soon in
    let (low, high) =
      within_error f gap slack (ticks_at_event m w'.event - start) (as_nanos d) pos small sharp
        least most close in
    rw (now_known m w clock, slept, done, read)
      ((assert_iff _ (next_event w')).1 (in_range d low high))
