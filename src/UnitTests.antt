-- ===== src/UnitTests.antt =====
-- src/lib.rs, `mod tests`: the crate's own unit tests, as programs over the model. A failed
-- assertion is a panic. What a sleep of a given time does to the world is a parameter.
pub mod Known
pub mod Advances
pub mod Comparing
pub mod Mirrors
pub mod Recalibrating
pub mod Sleeping
pub mod Arithmetic
use hotclock.Prelude.{ℕ, zero, suc, ◌+◌, Bool, true, false, ◌&&◌, leb, ltb, Option, none, some}
use hotclock.Duration.{
  Duration, zero_duration, as_nanos, as_millis, from_secs, from_millis, from_micros, abs_diff,
}
use hotclock.Machine.{
  Machine, World, Run, Outcome, ok, panic, spinning, pure, panics, assertion, ◌>>=◌, ◌>>◌,
}
use hotclock.Instant.{
  Instant, now, elapsed, duration_since, checked_duration_since, add, add_assign, sub, sub_assign,
  sub_instant, recalibrate,
}
use hotclock.Instant.Ordered as Ordered
use hotclock.Instant.Ordered.{OrderedInstant}

-- `assert!`
abbrev pub assert : Bool → Run (Unit {0})
assert true = pure tt
assert false = panics assertion

-- it returns, with every assertion met
abbrev pub Passes : Outcome (Unit {0}) → Type 0
Passes (ok a w) = Unit
Passes (panic p) = ⊥
Passes spinning = ⊥

-- `std::thread::sleep`
abbrev pub Sleep : Type 0
Sleep = Duration → World → World

abbrev pub sleeping : Sleep → Duration → Run (Unit {0})
sleeping sleep d w = ok tt (sleep d w)

-- `as_millis` from `least` on and below `most`
abbrev pub within : ℕ → ℕ → Duration → Bool
within least most d = leb least (as_millis d) && ltb (as_millis d) most

-- `==` on durations
abbrev pub is_zero : Duration → Bool
is_zero d = leb (as_nanos d) 0

abbrev pub is_some {ℓ} : {A : Type ℓ} → Option A → Bool
is_some none = false
is_some (some a) = true

abbrev pub is_none {ℓ} : {A : Type ℓ} → Option A → Bool
is_none none = true
is_none (some a) = false

-- the loop of `now_advances`, with the rounds left
unfoldable pub advances : Machine → ℕ → Instant → Run (Unit {0})
advances m zero previous = pure tt
advances m (suc rounds) previous = do
  current ← now m
  assert (leb previous.raw current.raw)
  advances m rounds current

unfoldable pub now_advances : ℕ → Machine → Run (Unit {0})
now_advances rounds m = do previous ← now m; advances m rounds previous

unfoldable pub ordered_advances : Machine → ℕ → OrderedInstant → Run (Unit {0})
ordered_advances m zero previous = pure tt
ordered_advances m (suc rounds) previous = do
  current ← Ordered.now m
  assert (leb previous.raw current.raw)
  ordered_advances m rounds current

unfoldable pub ordered_now_advances : ℕ → Machine → Run (Unit {0})
ordered_now_advances rounds m = do previous ← Ordered.now m; ordered_advances m rounds previous

unfoldable pub elapsed_after_sleep : Machine → Sleep → Run (Unit {0})
elapsed_after_sleep m sleep = do
  start ← now m
  sleeping sleep (from_millis 10)
  elapsed ← elapsed m start
  assert (within 9 200 elapsed)

unfoldable pub ordered_elapsed_after_sleep : Machine → Sleep → Run (Unit {0})
ordered_elapsed_after_sleep m sleep = do
  start ← Ordered.now m
  sleeping sleep (from_millis 10)
  elapsed ← Ordered.elapsed m start
  assert (within 9 200 elapsed)

unfoldable pub ordered_elapsed_unordered_after_sleep : Machine → Sleep → Run (Unit {0})
ordered_elapsed_unordered_after_sleep m sleep = do
  start ← Ordered.now m
  sleeping sleep (from_millis 10)
  elapsed ← Ordered.elapsed_unordered m start
  assert (within 9 200 elapsed)

unfoldable pub ordered_as_unordered_preserves_tick_value : Machine → Run (Unit {0})
ordered_as_unordered_preserves_tick_value m = do
  ordered ← Ordered.now m
  let unordered = Ordered.as_unordered ordered
  elapsed_from_ordered ← Ordered.elapsed_unordered m ordered
  elapsed_from_unordered ← elapsed m unordered
  assert (ltb (as_millis (abs_diff elapsed_from_ordered elapsed_from_unordered)) 1)

unfoldable pub duration_since_saturates : Machine → Sleep → Run (Unit {0})
duration_since_saturates m sleep = do
  early ← now m
  sleeping sleep (from_millis 5)
  late ← now m
  back ← duration_since m early late
  assert (is_zero back)
  forth ← duration_since m late early
  assert (leb (as_nanos (from_millis 4)) (as_nanos forth))

unfoldable pub checked_duration_since_returns_none : Machine → Sleep → Run (Unit {0})
checked_duration_since_returns_none m sleep = do
  early ← now m
  sleeping sleep (from_millis 5)
  late ← now m
  back ← checked_duration_since m early late
  assert (is_none back)
  forth ← checked_duration_since m late early
  assert (is_some forth)

unfoldable pub sub_instant_returns_elapsed : Machine → Sleep → Run (Unit {0})
sub_instant_returns_elapsed m sleep = do
  a ← now m
  sleeping sleep (from_millis 5)
  b ← now m
  diff ← sub_instant m b a
  assert (within 4 200 diff)

unfoldable pub add_duration_advances_time : Machine → Run (Unit {0})
add_duration_advances_time m = do
  start ← now m
  later ← add m start (from_secs 1)
  diff ← duration_since m later start
  let drift = abs_diff diff (from_secs 1)
  assert (ltb (as_nanos drift) (as_nanos (from_micros 1)))

unfoldable pub sub_duration_and_add_assign : Machine → Run (Unit {0})
sub_duration_and_add_assign m = do
  start ← now m
  earlier ← sub m start (from_millis 100)
  diff ← duration_since m start earlier
  assert (leb 99 (as_millis diff) && leb (as_millis diff) 101)
  t ← add_assign m start (from_secs 1)
  t' ← sub_assign m t (from_millis 500)
  delta ← duration_since m t' start
  let drift = abs_diff delta (from_millis 500)
  assert (ltb (as_nanos drift) (as_nanos (from_micros 2)))

unfoldable pub ordered_arithmetic_mirrors : Machine → Sleep → Run (Unit {0})
ordered_arithmetic_mirrors m sleep = do
  a ← Ordered.now m
  sleeping sleep (from_millis 5)
  b ← Ordered.now m
  diff ← Ordered.sub_instant m b a
  assert (within 4 200 diff)
  back ← Ordered.duration_since m a b
  assert (is_zero back)
  forth ← Ordered.checked_duration_since m b a
  assert (is_some forth)
  later ← Ordered.add m a (from_secs 1)
  ahead ← Ordered.duration_since m later a
  let drift = abs_diff ahead (from_secs 1)
  assert (ltb (as_nanos drift) (as_nanos (from_micros 1)))

unfoldable pub recalibrate_does_not_perturb : Machine → Sleep → Run (Unit {0})
recalibrate_does_not_perturb m sleep = do
  start ← now m
  sleeping sleep (from_millis 20)
  recalibrate m
  elapsed ← elapsed m start
  assert (within 19 500 elapsed)

unfoldable pub recalibrate_repeatedly : Machine → Run (Unit {0})
recalibrate_repeatedly m = do
  recalibrate m
  recalibrate m
  recalibrate m
  t ← now m
  _ ← elapsed m t
  pure tt
