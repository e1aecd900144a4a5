-- ===== src/Calibration.antt =====
-- src/calibration.rs: the frequency of the counter, measured against the monotonic clock.
pub mod Frame
pub mod Spin
pub mod Median
pub mod Accuracy
use hotclock.Prelude.{
  ℕ, zero, suc, ◌/◌, Option, none, some, List, [], ◌∷◌, ltb, leb, if◌then◌else◌, get_elem?,
}
use hotclock.Word.{u64_saturate, mul_u128, wrapping_sub, checked_div}
use hotclock.Machine.{Machine, Run, spinning, pure, ◌>>=◌, ◌>>◌, observe}
use hotclock.Arch.Fallback
use hotclock.Arch.Counter.{ticks}

abbrev pub calibration_time_ns : ℕ
calibration_time_ns = 10_000_000

abbrev pub num_samples : ℕ
num_samples = 5

abbrev pub clock_monotonic : Machine → Run ℕ
clock_monotonic m = observe (Fallback.clock_monotonic m.host)

-- the `while` loop, followed for at most as many rounds as the first argument says
unfoldable pub spin_until : ℕ → Machine → ℕ → Run (Unit {0})
spin_until zero m wall_start = λ w. spinning
spin_until (suc rounds) m wall_start = do
  now ← clock_monotonic m
  let again = spin_until rounds m wall_start
  if ltb (wrapping_sub now wall_start) calibration_time_ns then again else pure tt

-- an estimate keeps its initial 0 where the division is refused
or_zero : Option ℕ → ℕ
or_zero none = 0
or_zero (some hz) = u64_saturate hz

unfoldable pub estimate : ℕ → ℕ → ℕ
unfolding or_zero
estimate ticks wall_elapsed = or_zero (checked_div (mul_u128 ticks 1_000_000_000) wall_elapsed)

-- one round of the `for` loop
unfoldable pub sample : Machine → Run ℕ
unfolding spin_until
sample m = do
  wall_start ← clock_monotonic m
  t0 ← ticks m
  spin_until m.spins m wall_start
  t1 ← ticks m
  wall_end ← clock_monotonic m
  pure (estimate (wrapping_sub t1 t0) (wrapping_sub wall_end wall_start))

-- the `for` loop
unfoldable pub samples : ℕ → Machine → Run (List ℕ)
samples zero m = pure []
samples (suc n) m = do e ← sample m; rest ← samples n m; pure (e ∷ rest)

-- `sort_unstable` on u64: equal numbers cannot be told apart, so every sort gives this list
unfoldable pub insert : ℕ → List ℕ → List ℕ
insert x [] = x ∷ []
insert x (y ∷ ys) = if leb x y then x ∷ y ∷ ys else y ∷ insert x ys

unfoldable pub sort_unstable : List ℕ → List ℕ
unfolding insert
sort_unstable [] = []
sort_unstable (x ∷ xs) = insert x (sort_unstable xs)

-- `estimates[NUM_SAMPLES / 2]` after the sort; the array has NUM_SAMPLES entries
abbrev pub middle : Option ℕ → ℕ
middle none = 0
middle (some hz) = hz

unfoldable pub median : List ℕ → ℕ
unfolding sort_unstable
median estimates = middle (get_elem? (sort_unstable estimates) (num_samples / 2))

unfoldable pub calibrate_frequency : Machine → Run ℕ
calibrate_frequency m = do estimates ← samples num_samples m; pure (median estimates)
