-- ===== src/Instant/Accuracy.antt =====
-- src/instant.rs, src/arch/mod.rs and src/calibration.rs together: how far the first `elapsed` of a
-- program is from the time that passed.
use native.Mathlib.Decide.{dec_lt}
use native.Mathlib.Nat.{mul-le-mul_left, mul-le-mul_right}
use hotclock.Prelude.{ℕ, ◌+◌, ◌-◌, ◌*◌, ◌^◌, ◌≤◌, ◌<◌, ◌≡◌, ◌≢◌, ◌⊎◌, inl, inr, ◌∙◌, arith}
use hotclock.Word.{u64_mod, u64_max}
use hotclock.Duration.{Duration, as_nanos}
use hotclock.Target.Items.{no_clock}
use hotclock.Machine.{Machine, World, ok, next_event, at_event}
use hotclock.Arch.Frequency.{read_frequency}
use hotclock.Arch.Scale.{scale_of, nanos_per_second_q32}
use hotclock.Arch.Scale.Accuracy.{duration_at-scale_of, scale_of_bounds, scale_of-lt}
use hotclock.Arch.Scale.Cache.{started, stored, nanos_per_tick_q32_lem}
use hotclock.Calibration.{calibration_time_ns, calibrate_frequency}
use hotclock.Calibration.Spin.{ticks_reader, ticks_at_event, ClockMovesOn, ticks-eq}
use hotclock.Calibration.Accuracy.{IsSteady, IsCloseTo, calibrate_frequency_accurate}
use hotclock.Convert.{duration_at}
use hotclock.Convert.Bounds.{duration_at_lem}
use hotclock.Convert.Cached.{ticks_to_duration}
use hotclock.Instant.{Instant, elapsed}
use hotclock.Instant.Laws.{wrapping_sub-le}

-- the error of the calibration at `f` Hz, in ticks per second, times the calibration time
abbrev pub calibration_error : ℕ → ℕ → ℕ → ℕ
calibration_error f gap slack = calibration_time_ns + (2 * (f * gap) + slack)

-- `nanos` against the true time of `t` ticks at `f` Hz, times the calibration time: too long by no
-- more than the calibration's error, and too short by no more than a nanosecond, the rounding of
-- the scale and the slack.
abbrev pub IsTime : ℕ → ℕ → ℕ → ℕ → ℕ → Type 0
IsTime f gap slack t nanos =
    (nanos * (f * calibration_time_ns)
      ≤ t * 1_000_000_000 * calibration_time_ns + nanos * calibration_error f gap slack)
    × ((nanos ≡ u64_max)
        ⊎ (t * nanos_per_second_q32 * calibration_time_ns
            ≤ ((nanos + 1) * 2 ^ 32 + t) * (f * calibration_time_ns + slack)))

-- a saturated duration is not too long either
nanos-le :
    (hz t : ℕ)
    → 0 < hz
    → t < u64_mod
    → as_nanos (duration_at (scale_of hz) t) * hz ≤ t * 1_000_000_000
nanos-le hz t pos fits =
    let n = as_nanos (duration_at (scale_of hz) t) in
    let floor : n * 2 ^ 32 ≤ t * scale_of hz =
      omega (arith, (duration_at_lem (scale_of hz) t (scale_of-lt hz) fits).1) in
    omega (arith, mul-le-mul_right hz floor, mul-le-mul_left t (scale_of_bounds hz pos).0)

pub duration_at-IsTime :
    (f gap slack hz t : ℕ)
    → 0 < hz
    → t < u64_mod
    → IsCloseTo f gap slack hz
    → IsTime f gap slack t (as_nanos (duration_at (scale_of hz) t))
duration_at-IsTime f gap slack hz t pos fits (most, least) =
    let n = as_nanos (duration_at (scale_of hz) t) in
    (
      omega (
        arith,
        mul-le-mul_left n least,
        mul-le-mul_right calibration_time_ns (nanos-le hz t pos fits),
      ),
      elim (dec_lt n u64_max) [
        | yes small ↦ inr (
            omega (
              arith,
              mul-le-mul_right calibration_time_ns (duration_at-scale_of hz t pos fits small).1,
              mul-le-mul_left ((n + 1) * 2 ^ 32 + t) most,
            ))
        | no top ↦ inl (omega (arith, (duration_at_lem (scale_of hz) t (scale_of-lt hz) fits).1))
      ],
    )

-- The first `elapsed` of a program, on a target whose frequency is measured: with a counter of `f`
-- ticks a second up to a slack, reads at most `gap` nanoseconds apart, a clock that moves on within
-- the rounds of a spin loop, and an `f` above the calibration's error, it returns. With `t` ticks
-- passed since the instant, its nanoseconds exceed `t / f` seconds by at most the part of them that
-- the calibration's error is of `f`; and unless they are saturated, they fall short by at most one
-- nanosecond, `t / 2^32` of one and the slack.
pub elapsed_accurate :
    (m : Machine) (w : World) (self : Instant) (f gap slack : ℕ)
    → ticks_reader m ≢ no_clock
    → ClockMovesOn m
    → IsSteady m f gap slack
    → f < u64_mod
    → calibration_error f gap slack < f * calibration_time_ns
    → ((v : World) → read_frequency m v ≡ calibrate_frequency m v)
    → w.nanos_per_tick_q32 ≡ 0
    → self.raw ≤ ticks_at_event m w.event
    → ticks_at_event m w.event < u64_mod
    → (d : Duration) × (w' : World) × (elapsed m self w ≡ ok d w')
      × IsTime f gap slack (ticks_at_event m w.event - self.raw) (as_nanos d)
unfolding elapsed ticks_to_duration
elapsed_accurate m w self f gap slack clock moves steady small sharp measured unset ahead fits =
    let (hz, k, e, close) =
      calibrate_frequency_accurate m (next_event w) f gap slack clock moves steady small in
    let pos : 0 < hz = omega arith in
    let t = ticks_at_event m w.event - self.raw in
    let read = measured (next_event w) ∙ e in
    let (_, _, lazy) =
      nanos_per_tick_q32_lem m (next_event w) (at_event (next_event w) k) hz read in
    (
      duration_at (scale_of hz) t,
      started m (stored (scale_of hz) (at_event (next_event w) k)),
      rw (ticks-eq m w clock, wrapping_sub-le _ _ fits ahead, ticks_to_duration, lazy unset pos),
      duration_at-IsTime f gap slack hz t pos (omega arith) close,
    )
