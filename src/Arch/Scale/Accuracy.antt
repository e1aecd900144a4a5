-- ===== src/Arch/Scale/Accuracy.antt =====
-- src/arch/mod.rs and src/instant.rs: how well the Q32 scale stands for the frequency.
use native.Mathlib.Nat.{
  div-le_self, div-mul-le_self, lt-div-mul-add, mul-le-mul_left, mul-le-mul_right,
}
use hotclock.Prelude.{ℕ, ◌+◌, ◌*◌, ◌/◌, ◌^◌, ◌≤◌, ◌<◌, ◌≡◌, arith, ap}
use hotclock.Word.{u64_mod, u64_max}
use hotclock.Duration.{as_nanos}
use hotclock.Convert.{duration_at}
use hotclock.Convert.Bounds.{as_nanos-duration_at, nanos_at-min}
use hotclock.Arch.Scale.{nanos_per_second_q32, scale_of}

-- The scale of every frequency fits a u64: it is never saturated.
pub scale_of-eq_div : (f : ℕ) → scale_of f ≡ nanos_per_second_q32 / f
unfolding scale_of
scale_of-eq_div f = ground (arith, div-le_self nanos_per_second_q32 f)

pub scale_of-lt : (f : ℕ) → scale_of f < u64_mod
scale_of-lt f = omega (arith, scale_of-eq_div f, div-le_self nanos_per_second_q32 f)

pub scale_of_bounds :
    (f : ℕ)
    → 0 < f
    → (scale_of f * f ≤ nanos_per_second_q32) × (nanos_per_second_q32 ≤ scale_of f * f + f)
scale_of_bounds f pos =
    let e = ap (λ (q : ℕ). q * f) (scale_of-eq_div f) in
    (
      omega (arith, e, div-mul-le_self nanos_per_second_q32 f),
      omega (arith, e, lt-div-mul-add {a = nanos_per_second_q32} {b = f} pos),
    )

-- At a nonzero frequency `f`, and for `t` ticks that stay below `u64::MAX` nanoseconds, the
-- duration that the scale of `f` gives is never longer than the true `t / f` seconds, and shorter
-- by at most one nanosecond and the part `t / 2^32` of one that the rounding of the scale loses.
pub duration_at-scale_of :
    (f t : ℕ)
    → 0 < f
    → t < u64_mod
    → as_nanos (duration_at (scale_of f) t) < u64_max
    → let nanos = as_nanos (duration_at (scale_of f) t) in
      (nanos * f ≤ t * 1_000_000_000)
      × (t * nanos_per_second_q32 ≤ (nanos + 1) * 2 ^ 32 * f + t * f)
duration_at-scale_of f t pos ht small =
    let n = as_nanos (duration_at (scale_of f) t) in
    let product = t * scale_of f in
    let en : n ≡ product / 2 ^ 32 = omega (
      arith,
      as_nanos-duration_at (scale_of f) t,
      nanos_at-min (scale_of f) t (scale_of-lt f) ht,
    ) in
    let below : n * 2 ^ 32 ≤ product = omega arith in
    let above : product ≤ (n + 1) * 2 ^ 32 = omega arith in
    (
      omega (arith, mul-le-mul_right f below, mul-le-mul_left t (scale_of_bounds f pos).0),
      omega (arith, mul-le-mul_right f above, mul-le-mul_left t (scale_of_bounds f pos).1),
    )

-- A counter of exactly 10^9 ticks a second is its own duration: for every u64 tick count the
-- nanoseconds are the ticks.
pub duration_at-scale_of_one_ghz :
    (t : ℕ) → t < u64_mod → as_nanos (duration_at (scale_of 1_000_000_000) t) ≡ t
duration_at-scale_of_one_ghz t ht = omega (
  arith,
  as_nanos-duration_at (scale_of 1_000_000_000) t,
  nanos_at-min (scale_of 1_000_000_000) t (scale_of-lt 1_000_000_000) ht,
  ap (λ (q : ℕ). t * q) (scale_of-eq_div 1_000_000_000),
)

-- The scale of a frequency from 1 Hz to 10^9 * 2^32 Hz is not zero.
pub scale_of_pos : (f : ℕ) → 0 < f → f ≤ nanos_per_second_q32 → 0 < scale_of f
scale_of_pos f pos h =
    grind (arith, scale_of-eq_div f, lt-div-mul-add {a = nanos_per_second_q32} pos)
