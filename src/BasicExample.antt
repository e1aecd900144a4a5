-- ===== src/BasicExample.antt =====
-- examples/basic.rs: a million wrapping additions, timed. `black_box` is the identity.
use native.Mathlib.Nat.{suc-mul, mul-suc, mul-add}
use hotclock.Prelude.{ℕ, zero, suc, ◌+◌, ◌-◌, ◌*◌, ◌/◌, ◌%◌, ◌<◌, ◌≡◌, ◌≢◌, arith, refl}
use hotclock.Word.{u64_mod, wrapping_sub}
use hotclock.Duration.{Duration}
use hotclock.Target.Items.{no_clock}
use hotclock.Machine.{Machine, World, Run, ok, pure, ◌>>=◌, next_event}
use hotclock.Calibration.Spin.{ticks_reader, ticks_at_event}
use hotclock.Convert.{duration_at}
use hotclock.Instant.{now, elapsed, from_raw_ticks}
use hotclock.UnitTests.Known.{now_known, elapsed_known}

-- the loop, with the rounds left
unfoldable pub additions : ℕ → ℕ → ℕ → ℕ
additions zero i sum = sum
additions (suc rounds) i sum = additions rounds (i + 1) ((sum + i) % u64_mod)

unfoldable pub main : ℕ → Machine → Run (ℕ × Duration)
main rounds m = do
  primed ← now m
  _ ← elapsed m primed
  start ← now m
  let sum = additions rounds 0 0
  taken ← elapsed m start
  pure (sum, taken)

-- the sum of the numbers below `n`
abbrev sum_below : ℕ → ℕ
sum_below zero = 0
sum_below (suc n) = sum_below n + n

sum_below-eq : (n : ℕ) → sum_below n * 2 + n ≡ n * n
sum_below-eq zero = refl
sum_below-eq (suc n) = omega (arith, sum_below-eq n, suc-mul n (suc n), mul-suc n n)

additions-eq :
    (n i sum : ℕ) → sum < u64_mod → additions n i sum ≡ (sum + n * i + sum_below n) % u64_mod
unfolding additions
additions-eq zero i sum h = omega arith
additions-eq (suc n) i sum h =
    omega (
      arith,
      additions-eq n (i + 1) ((sum + i) % u64_mod) (omega arith),
      mul-add n i 1,
      suc-mul n i,
    )

-- On a target that has a clock, with the scale set, the example prints the sum of the numbers below
-- the count, cut to 64 bits, and the duration of the ticks between the third read and the fourth.
pub main_prints :
    (m : Machine) (w : World) (rounds : ℕ)
    → ticks_reader m ≢ no_clock
    → 0 < w.nanos_per_tick_q32
    → main rounds m w
      ≡ ok
          (
            (rounds * rounds - rounds) / 2 % u64_mod,
            duration_at w.nanos_per_tick_q32 (
                wrapping_sub
                  (ticks_at_event m (w.event + 1 + 1 + 1))
                  (ticks_at_event m (w.event + 1 + 1))),
          )
          (next_event (next_event (next_event (next_event w))))
unfolding main
main_prints m w rounds clock pos =
    let total : additions rounds 0 0 ≡ (rounds * rounds - rounds) / 2 % u64_mod =
      omega (arith, additions-eq rounds 0 0 (omega arith), sum_below-eq rounds) in
    rw (
      now_known m w clock,
      elapsed_known m (next_event w) clock pos (from_raw_ticks (ticks_at_event m w.event)),
      now_known m (next_event (next_event w)) clock,
      elapsed_known m (next_event (next_event (next_event w))) clock pos
          (from_raw_ticks (ticks_at_event m (w.event + 1 + 1))),
      total,
    )
