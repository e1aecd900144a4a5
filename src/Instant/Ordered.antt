-- ===== src/Instant/Ordered.antt =====
-- src/instant.rs, `OrderedInstant`: the counter is read behind a barrier, by `ticks_ordered`.
pub mod Mirror
use hotclock.Prelude.{ℕ, Option, none, some}
use hotclock.Word.{wrapping_sub, checked_sub as sub_u64, checked_add as add_u64}
use hotclock.Duration.{Duration}
use hotclock.Machine.{Machine, Run, Panic, add_overflow, sub_overflow, pure, panics, ◌>>=◌}
use hotclock.Arch.Counter.{ticks, ticks_ordered}
use hotclock.Convert.Cached.{ticks_to_duration, duration_to_ticks}
use hotclock.Instant.{Instant, from_raw_ticks, map_duration, unwrap_or_default, raw_after}

pub record OrderedInstant : Type 0 where
  pub raw : ℕ

abbrev pub ordered : Option ℕ → Option OrderedInstant
ordered none = none
ordered (some t) = some (record { raw = t })

abbrev pub expect : Panic → Option OrderedInstant → Run OrderedInstant
expect p none = panics p
expect p (some t) = pure t

unfoldable pub now : Machine → Run OrderedInstant
now m = do t ← ticks_ordered m; pure (record { raw = t })

unfoldable pub elapsed : Machine → OrderedInstant → Run Duration
elapsed m self = do t ← ticks_ordered m; ticks_to_duration m (wrapping_sub t self.raw)

unfoldable pub elapsed_unordered : Machine → OrderedInstant → Run Duration
elapsed_unordered m self = do t ← ticks m; ticks_to_duration m (wrapping_sub t self.raw)

unfoldable pub as_unordered : OrderedInstant → Instant
as_unordered self = from_raw_ticks self.raw

unfoldable pub checked_duration_since :
    Machine → OrderedInstant → OrderedInstant → Run (Option Duration)
checked_duration_since m self earlier = map_duration m (sub_u64 self.raw earlier.raw)

unfoldable pub duration_since : Machine → OrderedInstant → OrderedInstant → Run Duration
unfolding checked_duration_since
duration_since m self earlier = do
  d ← checked_duration_since m self earlier
  pure (unwrap_or_default d)

unfoldable pub saturating_duration_since : Machine → OrderedInstant → OrderedInstant → Run Duration
unfolding duration_since
saturating_duration_since m self earlier = duration_since m self earlier

unfoldable pub checked_add : Machine → OrderedInstant → Duration → Run (Option OrderedInstant)
checked_add m self d = do
  delta ← duration_to_ticks m d
  pure (ordered (raw_after add_u64 self.raw delta))

unfoldable pub checked_sub : Machine → OrderedInstant → Duration → Run (Option OrderedInstant)
checked_sub m self d = do
  delta ← duration_to_ticks m d
  pure (ordered (raw_after sub_u64 self.raw delta))

unfoldable pub add : Machine → OrderedInstant → Duration → Run OrderedInstant
unfolding checked_add
add m self rhs = do t ← checked_add m self rhs; expect add_overflow t

unfoldable pub add_assign : Machine → OrderedInstant → Duration → Run OrderedInstant
unfolding add
add_assign m self rhs = add m self rhs

unfoldable pub sub : Machine → OrderedInstant → Duration → Run OrderedInstant
unfolding checked_sub
sub m self rhs = do t ← checked_sub m self rhs; expect sub_overflow t

unfoldable pub sub_assign : Machine → OrderedInstant → Duration → Run OrderedInstant
unfolding sub
sub_assign m self rhs = sub m self rhs

unfoldable pub sub_instant : Machine → OrderedInstant → OrderedInstant → Run Duration
unfolding duration_since
sub_instant m self rhs = duration_since m self rhs
