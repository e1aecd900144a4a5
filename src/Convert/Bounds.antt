-- ===== src/Convert/Bounds.antt =====
-- src/instant.rs, `ticks_to_duration` and `duration_to_ticks` at a given scale: what they return on
-- every branch, and that no intermediate value leaves its width.
use native.Mathlib.Nat.{mul-le-mul}
use hotclock.Prelude.{ℕ, ◌*◌, ◌/◌, ◌^◌, ◌≤◌, ◌<◌, ◌≡◌, ◌↔◌, ◌⊎◌, none, some, arith, min}
use hotclock.Word.{u64_mod, u64_max, u128_mod}
use hotclock.Duration.{Duration, IsDuration, as_nanos}
use hotclock.Convert.{nanos_at, duration_at, ticks_at}

product-lt : (t q : ℕ) → t < u64_mod → q < u64_mod → t * q < u128_mod
product-lt t q ht hq =
    omega (
      arith,
      mul-le-mul {n₁ = t} {m₁ = q} {n₂ = u64_max} {m₂ = u64_max} (omega arith) (omega arith),
    )

pub nanos_at-min :
    (q t : ℕ) → q < u64_mod → t < u64_mod → nanos_at q t ≡ min (t * q / 2 ^ 32) u64_max
unfolding nanos_at
nanos_at-min q t hq ht = ground (arith, product-lt t q ht hq)

pub nanos_at-le : (q t : ℕ) → nanos_at q t ≤ u64_max
unfolding nanos_at
nanos_at-le q t = ground arith

pub as_nanos-duration_at : (q t : ℕ) → as_nanos (duration_at q t) ≡ nanos_at q t
unfolding duration_at nanos_at
as_nanos-duration_at q t = ground arith

pub duration_at-IsDuration : (q t : ℕ) → IsDuration (duration_at q t)
unfolding duration_at nanos_at
duration_at-IsDuration q t = ground arith

-- For every u64 scale and tick count the result of `ticks_to_duration` is a proper `Duration`, on
-- the fast path below one second and on the other, and counts the floor of `ticks * scale / 2^32`
-- nanoseconds, or `u64::MAX` nanoseconds where that does not fit.
pub duration_at_lem :
    (q t : ℕ)
    → q < u64_mod
    → t < u64_mod
    → IsDuration (duration_at q t) × (as_nanos (duration_at q t) ≡ min (t * q / 2 ^ 32) u64_max)
duration_at_lem q t hq ht =
    (duration_at-IsDuration q t, omega (arith, as_nanos-duration_at q t, nanos_at-min q t hq ht))

shifted_fits : (d : Duration) → IsDuration d → as_nanos d * 2 ^ 32 < u128_mod
shifted_fits d h = omega arith

-- For a proper duration `duration_to_ticks` fails exactly when the scale is zero or the quotient
-- `nanos * 2^32 / scale` does not fit a u64, and succeeds otherwise with that quotient: the shift
-- by 32 loses no bit.
pub ticks_at_lem :
    (q : ℕ) (d : Duration) (t : ℕ)
    → IsDuration d
    → ((ticks_at q d ≡ none) ↔ ((q ≡ 0) ⊎ (u64_max < as_nanos d * 2 ^ 32 / q)))
      × ((ticks_at q d ≡ some t) ↔ ((0 < q) × (t < u64_mod) × (t ≡ as_nanos d * 2 ^ 32 / q)))
unfolding ticks_at
ticks_at_lem q d t h = ground (arith, shifted_fits d h)
