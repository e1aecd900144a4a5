-- ===== src/Examples/ConvertExamples.antt =====
-- The conversion theorems at a scale of 1 ns a tick and at one of 41 2/3 ns a tick.
use hotclock.Prelude.{ℕ, ◌+◌, ◌*◌, ◌/◌, ◌^◌, ◌≤◌, ◌≡◌, ◌↔◌, ◌⊎◌, ◌<◌, refl, arith, min, none, some}
use hotclock.Word.{u64_max, u64_mod}
use hotclock.Duration.{Duration, IsDuration, as_nanos}
use hotclock.Convert.{duration_at, ticks_at}
use hotclock.Convert.Bounds.{duration_at_lem, ticks_at_lem}
use hotclock.Convert.RoundTrip.{duration_at-ticks_at, ticks_at-duration_at}

-- 24 MHz
abbrev scale : ℕ
scale = 178956970666

abbrev two_and_a_half : Duration
two_and_a_half = record { secs = 2; nanos = 500_000_000 }

duration_at_lem_example :
    IsDuration (duration_at scale 48_000_000)
    × (as_nanos (duration_at scale 48_000_000) ≡ min (48_000_000 * scale / 2 ^ 32) u64_max)
duration_at_lem_example = duration_at_lem scale 48_000_000 (omega arith) (omega arith)

ticks_at_lem_example :
    ((ticks_at scale two_and_a_half ≡ none)
      ↔ ((scale ≡ 0) ⊎ (u64_max < as_nanos two_and_a_half * 2 ^ 32 / scale)))
    × ((ticks_at scale two_and_a_half ≡ some 60_000_000) ↔ (
        (0 < scale)
        × (60_000_000 < u64_mod)
        × (60_000_000 ≡ as_nanos two_and_a_half * 2 ^ 32 / scale)))
ticks_at_lem_example = ticks_at_lem scale two_and_a_half 60_000_000 (omega arith)

duration_at-ticks_at_example :
    (as_nanos (duration_at scale 60_000_000) ≤ 2_500_000_000)
    × (2_500_000_000 ≤ as_nanos (duration_at scale 60_000_000) + scale / 2 ^ 32 + 1)
unfolding ticks_at
duration_at-ticks_at_example =
    duration_at-ticks_at scale two_and_a_half 60_000_000 (omega arith) (omega arith) (omega arith)
      refl

ticks_at-duration_at_example :
    (t' : ℕ) × (ticks_at scale (duration_at scale 48_000_000) ≡ some t')
    × (t' ≤ 48_000_000)
    × (48_000_000 ≤ t' + 2 ^ 32 / scale + 1)
unfolding duration_at
ticks_at-duration_at_example =
    ticks_at-duration_at scale 48_000_000 (omega arith) (omega arith) (omega arith) (omega arith)
