-- ===== src/Instant.antt =====
-- src/instant.rs, `Instant`: each method and operator over the machine's counter and the cached
-- scale. `checked_*` return an `Option`; the operators panic where it is `none`.
pub mod Ordered
pub mod Laws
pub mod Arithmetic
pub mod Accuracy
pub mod Recalibrated
use hotclock.Prelude.{ℕ, Option, none, some}
use hotclock.Word.{wrapping_sub, checked_sub as sub_u64, checked_add as add_u64}
use hotclock.Duration.{Duration, zero_duration}
use hotclock.Machine.{Machine, Run, Panic, add_overflow, sub_overflow, pure, panics, ◌>>=◌}
use hotclock.Arch.Counter.{ticks}
use hotclock.Arch.Scale.{recalibrate as recalibrate_scale}
use hotclock.Convert.Cached.{ticks_to_duration, duration_to_ticks}

pub record Instant : Type 0 where
  pub raw : ℕ

abbrev pub from_raw_ticks : ℕ → Instant
from_raw_ticks t = record { raw = t }

-- `Option::map(ticks_to_duration)`
abbrev pub map_duration : Machine → Option ℕ → Run (Option Duration)
map_duration m none = pure none
map_duration m (some delta) = do d ← ticks_to_duration m delta; pure (some d)

-- `unwrap_or_default`
abbrev pub unwrap_or_default : Option Duration → Duration
unwrap_or_default none = zero_duration
unwrap_or_default (some d) = d

-- the `?` on the conversion, and `Option::map(Self)` on the sum or the difference
abbrev pub raw_after : (ℕ → ℕ → Option ℕ) → ℕ → Option ℕ → Option ℕ
raw_after op raw none = none
raw_after op raw (some delta) = op raw delta

abbrev pub instant : Option ℕ → Option Instant
instant none = none
instant (some t) = some (from_raw_ticks t)

abbrev pub expect : Panic → Option Instant → Run Instant
expect p none = panics p
expect p (some t) = pure t

unfoldable pub now : Machine → Run Instant
now m = do t ← ticks m; pure (from_raw_ticks t)

unfoldable pub elapsed : Machine → Instant → Run Duration
elapsed m self = do t ← ticks m; ticks_to_duration m (wrapping_sub t self.raw)

unfoldable pub checked_duration_since : Machine → Instant → Instant → Run (Option Duration)
checked_duration_since m self earlier = map_duration m (sub_u64 self.raw earlier.raw)

unfoldable pub duration_since : Machine → Instant → Instant → Run Duration
unfolding checked_duration_since
duration_since m self earlier = do
  d ← checked_duration_since m self earlier
  pure (unwrap_or_default d)

unfoldable pub saturating_duration_since : Machine → Instant → Instant → Run Duration
unfolding duration_since
saturating_duration_since m self earlier = duration_since m self earlier

unfoldable pub checked_add : Machine → Instant → Duration → Run (Option Instant)
checked_add m self d = do
  delta ← duration_to_ticks m d
  pure (instant (raw_after add_u64 self.raw delta))

unfoldable pub checked_sub : Machine → Instant → Duration → Run (Option Instant)
checked_sub m self d = do
  delta ← duration_to_ticks m d
  pure (instant (raw_after sub_u64 self.raw delta))

unfoldable pub recalibrate : Machine → Run (Unit {0})
recalibrate m = recalibrate_scale m

-- `self + rhs`
unfoldable pub add : Machine → Instant → Duration → Run Instant
unfolding checked_add
add m self rhs = do t ← checked_add m self rhs; expect add_overflow t

-- `*self = *self + rhs`, with the new value returned
unfoldable pub add_assign : Machine → Instant → Duration → Run Instant
unfolding add
add_assign m self rhs = add m self rhs

-- `self - rhs` for a duration
unfoldable pub sub : Machine → Instant → Duration → Run Instant
unfolding checked_sub
sub m self rhs = do t ← checked_sub m self rhs; expect sub_overflow t

unfoldable pub sub_assign : Machine → Instant → Duration → Run Instant
unfolding sub
sub_assign m self rhs = sub m self rhs

-- `self - rhs` for an instant
unfoldable pub sub_instant : Machine → Instant → Instant → Run Duration
unfolding duration_since
sub_instant m self rhs = duration_since m self rhs
