-- ===== src/Calibration/Accuracy.antt =====
-- src/calibration.rs: how far the measured frequency can be from the counter's own.
use native.Mathlib.Decide.{dec_le, dec_lt}
use native.Mathlib.Nat.{
  le_trans, mul-le-mul_left, mul-le-mul_right, div-mul-le_self, lt-div-mul-add,
}
use hotclock.Prelude.{ℕ, ◌+◌, ◌-◌, ◌*◌, ◌/◌, ◌≤◌, ◌<◌, ◌≡◌, ◌≢◌, ap, sym, subst, arith}
use hotclock.Word.{u64_mod, u64_max}
use hotclock.Target.Items.{no_clock}
use hotclock.Machine.{Machine, World, ok, at_event}
use hotclock.Calibration.{calibration_time_ns, num_samples, estimate, median, calibrate_frequency}
use hotclock.Calibration.Spin.{
  ticks_reader, clock_passed, ticks_passed, IsWindow, reading, ClockMovesOn, samples-return,
}
use hotclock.Calibration.Median.{median-All}

-- A counter of `f` ticks a second. Within one sample the counter and the clock agree up to `slack`
-- (in ticks times 10^9), neither wraps round, and two neighbouring reads are at most `gap`
-- nanoseconds apart.
pub record IsSteady (m : Machine) (f gap slack : ℕ) : Type 0 where
  pub fast :
      (i j : ℕ)
      → i ≤ j
      → j ≤ i + m.spins + 4
      → ticks_passed m i j * 1_000_000_000 ≤ f * clock_passed m i j + slack
  pub slow :
      (i j : ℕ)
      → i ≤ j
      → j ≤ i + m.spins + 4
      → f * clock_passed m i j ≤ ticks_passed m i j * 1_000_000_000 + slack
  pub adds :
      (i j k : ℕ)
      → i ≤ j
      → j ≤ k
      → k ≤ i + m.spins + 4
      → clock_passed m i k ≡ clock_passed m i j + clock_passed m j k
  pub close : (i : ℕ) → clock_passed m i (i + 1) ≤ gap

shorten_excess : (b d c w err : ℕ) → (b + d) * w ≤ b * w + err → c ≤ w → (b + d) * c ≤ b * c + err
shorten_excess b d c w err h short = omega (arith, mul-le-mul_left d short)

-- A bound that holds over a long window holds over a shorter one.
shorten : (a b c w err : ℕ) → a * w ≤ b * w + err → c ≤ w → a * c ≤ b * c + err
shorten a b c w err h short = elim (dec_le a b) [
  | yes p ↦ omega (arith, mul-le-mul_right c p)
  | no p ↦
      let e : a ≡ b + (a - b) = omega arith in
      subst (λ x. x * c ≤ b * c + err) (sym e)
        (shorten_excess b (a - b) c w err (subst (λ x. x * w ≤ b * w + err) e h) short)
]

estimate-le-div : (t w : ℕ) → t < u64_mod → estimate t w ≤ t * 1_000_000_000 / w
unfolding estimate
estimate-le-div t w ht = ground arith

estimate-le : (t w : ℕ) → t < u64_mod → estimate t w * w ≤ t * 1_000_000_000
estimate-le t w ht =
    le_trans (mul-le-mul_right w (estimate-le-div t w ht)) (div-mul-le_self (t * 1_000_000_000) w)

-- The estimate of a positive window is the quotient, or the end of u64.
estimate-eq-div :
    (t w : ℕ) → t < u64_mod → 0 < w → estimate t w < u64_max → estimate t w ≡ t * 1_000_000_000 / w
unfolding estimate
estimate-eq-div t w ht pos small = ground arith

estimate-gt :
    (t w : ℕ)
    → t < u64_mod
    → 0 < w
    → estimate t w < u64_max
    → t * 1_000_000_000 < (estimate t w + 1) * w
estimate-gt t w ht pos small = omega (
  arith,
  lt-div-mul-add {a = t * 1_000_000_000} {b = w} pos,
  ap (λ (q : ℕ). q * w) (estimate-eq-div t w ht pos small),
)

module _ {m : Machine} {f gap slack : ℕ} (steady : IsSteady m f gap slack) {e j : ℕ}
    (win : IsWindow m e j) where
  wall : ℕ
  wall = clock_passed m e (j + 1 + 1)

  wall-ge : calibration_time_ns ≤ wall
  unfolding wall
  wall-ge =
      omega
        (arith, steady.adds e j (j + 1 + 1) (omega arith) (omega arith) (omega arith), win.passed)

  ticks_fit : ticks_passed m (e + 1) (j + 1) < u64_mod
  ticks_fit = omega arith

  -- the counter is read inside the window that the clock measures
  inner-le : clock_passed m (e + 1) (j + 1) ≤ wall
  unfolding wall
  inner-le = omega (
    arith,
    steady.adds e (e + 1) (j + 1 + 1) (omega arith) (omega arith) (omega arith),
    steady.adds (e + 1) (j + 1) (j + 1 + 1) (omega arith) (omega arith) (omega arith),
  )

  inner-ge : wall ≤ clock_passed m (e + 1) (j + 1) + 2 * gap
  unfolding wall
  inner-ge = omega (
    arith,
    steady.adds e (e + 1) (j + 1 + 1) (omega arith) (omega arith) (omega arith),
    steady.adds (e + 1) (j + 1) (j + 1 + 1) (omega arith) (omega arith) (omega arith),
    steady.close e,
    steady.close (j + 1),
  )

  reading_upper : reading m e j * calibration_time_ns ≤ f * calibration_time_ns + slack
  unfolding wall
  reading_upper =
      shorten (reading m e j) f calibration_time_ns wall slack
        (omega (
          arith,
          estimate-le (ticks_passed m (e + 1) (j + 1)) wall ticks_fit,
          steady.fast (e + 1) (j + 1) (omega arith) (omega arith),
          mul-le-mul_left f inner-le,
        ))
        wall-ge

  reading_lower :
      f < u64_mod
      → f * calibration_time_ns
        ≤ (reading m e j + 1) * calibration_time_ns + (2 * (f * gap) + slack)
  unfolding wall
  reading_lower small = elim (dec_lt (reading m e j) u64_max) [
    | yes exact ↦
        shorten f (reading m e j + 1) calibration_time_ns wall (2 * (f * gap) + slack)
          (omega (
            arith,
            estimate-gt (ticks_passed m (e + 1) (j + 1)) wall ticks_fit (omega (arith, wall-ge))
                exact,
            steady.slow (e + 1) (j + 1) (omega arith) (omega arith),
            mul-le-mul_left f inner-ge,
          ))
          wall-ge
    | no top ↦ omega arith
  ]

-- how close a frequency is to `f`, with both sides multiplied by the calibration time
abbrev pub IsCloseTo : ℕ → ℕ → ℕ → ℕ → Type 0
IsCloseTo f gap slack hz =
    (hz * calibration_time_ns ≤ f * calibration_time_ns + slack)
    × (f * calibration_time_ns ≤ (hz + 1) * calibration_time_ns + (2 * (f * gap) + slack))

-- On a target that has a clock, with a counter that runs at `f` ticks a second up to a slack, with
-- neighbouring reads at most `gap` nanoseconds apart, and with a monotonic clock that moves on
-- within the rounds that each spin loop is followed for, the calibration returns. It changes no
-- static, and the frequency that it returns exceeds `f` by no more than the slack over the
-- calibration time, and falls short of `f` by no more than 1, the same slack and the part `2 *
-- gap` of the 10 ms window.
pub calibrate_frequency_accurate :
    (m : Machine) (w : World) (f gap slack : ℕ)
    → ticks_reader m ≢ no_clock
    → ClockMovesOn m
    → IsSteady m f gap slack
    → f < u64_mod
    → (hz : ℕ) × (k : ℕ) × (calibrate_frequency m w ≡ ok hz (at_event w k))
      × IsCloseTo f gap slack hz
unfolding calibrate_frequency
calibrate_frequency_accurate m w f gap slack clock moves steady small =
    let (hs, k, e, len, all) =
      samples-return (IsCloseTo f gap slack) num_samples m w clock moves
        (λ e j win. (reading_upper steady win, reading_lower steady win small)) in
    (median hs, k, rw e, median-All (IsCloseTo f gap slack) hs len all)
