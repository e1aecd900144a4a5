-- ===== src/Convert/RoundTrip.antt =====
-- src/instant.rs: the two conversions are monotone, almost additive, and inverse to one another up
-- to a stated error.
use native.Mathlib.Nat.{
  mul-le-mul_right, le_of_mul-le-mul_right, lt_of_mul-lt-mul_right, lt-div-mul-add, div-mul-le_self,
  add-mul,
}
use hotclock.Prelude.{ℕ, ◌+◌, ◌*◌, ◌/◌, ◌^◌, ◌≤◌, ◌<◌, ◌≡◌, refl, ap, some, arith}
use hotclock.Word.{u64_mod, u64_max}
use hotclock.Duration.{Duration, IsDuration, as_nanos}
use hotclock.Convert.{duration_at, ticks_at}
use hotclock.Convert.Bounds.{
  nanos_at-min, as_nanos-duration_at, duration_at-IsDuration, ticks_at_lem,
}

pub quotient_bounds : (a q : ℕ) → 0 < q → (a / q * q ≤ a) × (a < a / q * q + q)
quotient_bounds a q pos = (div-mul-le_self a q, lt-div-mul-add pos)

-- At one u64 scale, more u64 ticks never make a shorter duration.
pub duration_at_mono :
    (q s t : ℕ)
    → q < u64_mod
    → t < u64_mod
    → s ≤ t
    → as_nanos (duration_at q s) ≤ as_nanos (duration_at q t)
duration_at_mono q s t hq ht h = omega (
  arith,
  as_nanos-duration_at q s,
  as_nanos-duration_at q t,
  nanos_at-min q s hq (omega arith),
  nanos_at-min q t hq ht,
  mul-le-mul_right q h,
)

-- Splitting an interval of `s + t` ticks at one u64 scale loses at most one nanosecond: where the
-- whole stays below `u64::MAX` nanoseconds, the durations of the parts add up to the duration of
-- the whole or to one nanosecond less.
pub duration_at-add :
    (q s t : ℕ)
    → q < u64_mod
    → s + t < u64_mod
    → as_nanos (duration_at q (s + t)) < u64_max
    → let parts = as_nanos (duration_at q s) + as_nanos (duration_at q t) in
      (parts ≤ as_nanos (duration_at q (s + t))) × (as_nanos (duration_at q (s + t)) ≤ parts + 1)
duration_at-add q s t hq hst small = omega (
  arith,
  as_nanos-duration_at q s,
  as_nanos-duration_at q t,
  as_nanos-duration_at q (s + t),
  nanos_at-min q s hq (omega arith),
  nanos_at-min q t hq (omega arith),
  nanos_at-min q (s + t) hq hst,
  add-mul s t q,
)

-- A proper duration below `u64::MAX` nanoseconds that `duration_to_ticks` accepts comes back from
-- `ticks_to_duration` never longer, and shorter by at most one tick's worth and one nanosecond.
pub duration_at-ticks_at :
    (q : ℕ) (d : Duration) (t : ℕ)
    → q < u64_mod
    → IsDuration d
    → as_nanos d ≤ u64_max
    → ticks_at q d ≡ some t
    → (as_nanos (duration_at q t) ≤ as_nanos d)
      × (as_nanos d ≤ as_nanos (duration_at q t) + q / 2 ^ 32 + 1)
duration_at-ticks_at q d t hq hd small e =
    let (pos, fits, quotient) = (ticks_at_lem q d t hd).1.0 e in
    omega (
      arith,
      as_nanos-duration_at q t,
      nanos_at-min q t hq fits,
      quotient_bounds (as_nanos d * 2 ^ 32) q pos,
      ap (λ (s : ℕ). s * q) quotient,
    )

floor_trip :
    (q t n t' : ℕ)
    → 0 < q
    → n ≡ t * q / 2 ^ 32
    → t' ≡ n * 2 ^ 32 / q
    → (t' ≤ t) × (t ≤ t' + 2 ^ 32 / q + 1)
floor_trip q t n t' pos en et =
    let lower : t' * q ≤ t * q =
      omega (arith, quotient_bounds (n * 2 ^ 32) q pos, ap (λ (s : ℕ). s * q) et) in
    let upper : t * q < (t' + 2 ^ 32 / q + 2) * q = omega (
      arith,
      quotient_bounds (n * 2 ^ 32) q pos,
      ap (λ (s : ℕ). s * q) et,
      quotient_bounds (2 ^ 32) q pos,
    ) in
    (le_of_mul-le-mul_right lower pos, omega (arith, lt_of_mul-lt-mul_right q upper))

-- At a nonzero u64 scale, a tick count whose duration stays below `u64::MAX` nanoseconds is taken
-- back by `duration_to_ticks` to a count that is never larger, and smaller by at most one
-- nanosecond's worth of ticks and one tick.
pub ticks_at-duration_at :
    (q t : ℕ)
    → 0 < q
    → q < u64_mod
    → t < u64_mod
    → as_nanos (duration_at q t) < u64_max
    → (t' : ℕ) × (ticks_at q (duration_at q t) ≡ some t') × (t' ≤ t) × (t ≤ t' + 2 ^ 32 / q + 1)
ticks_at-duration_at q t pos hq ht small =
    let n = as_nanos (duration_at q t) in
    let en : n ≡ t * q / 2 ^ 32 = omega (arith, as_nanos-duration_at q t, nanos_at-min q t hq ht) in
    let trip = floor_trip q t n (n * 2 ^ 32 / q) pos en refl in
    (
      n * 2 ^ 32 / q,
      (ticks_at_lem q (duration_at q t) (n * 2 ^ 32 / q) (duration_at-IsDuration q t)).1.1
          (pos, omega (arith, trip), refl),
      trip.0,
      trip.1,
    )
