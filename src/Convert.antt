-- ===== src/Convert.antt =====
-- src/instant.rs, the Q32 fixed-point conversion between ticks and durations, at a given scale
-- `q32` (what `nanos_per_tick_q32` returned).
pub mod Bounds
pub mod RoundTrip
pub mod Cached
use hotclock.Prelude.{ℕ, ◌*◌, ◌/◌, ◌%◌, ◌^◌, Option, none, some, ltb, ◌==◌, if◌then◌else◌}
use hotclock.Word.{u32_mod, u64_try_from, u64_saturate, mul_u128, checked_shl, checked_div}
use hotclock.Duration.{Duration, new, from_nanos, as_nanos}

infixl 5 ◌>>=◌
abbrev ◌>>=◌ : Option ℕ → (ℕ → Option ℕ) → Option ℕ
none >>= f = none
some a >>= f = f a

-- `product >> 32`, saturated to u64
unfoldable pub nanos_at : ℕ → ℕ → ℕ
nanos_at q32 ticks = let product = mul_u128 ticks q32 in u64_saturate (product / 2 ^ 32)

-- the rest of `ticks_to_duration` after the load of the scale
unfoldable pub duration_at : ℕ → ℕ → Duration
unfolding nanos_at
duration_at q32 ticks =
    let nanos = nanos_at q32 ticks in
    if ltb nanos 1_000_000_000 then new 0 (nanos % u32_mod) else from_nanos nanos

-- the rest of `duration_to_ticks` after the load of the scale
unfoldable pub ticks_at : ℕ → Duration → Option ℕ
ticks_at q32 d =
    let nanos = as_nanos d in
    if q32 == 0 then none else do
      shifted ← checked_shl nanos 32
      quotient ← checked_div shifted q32
      u64_try_from quotient
