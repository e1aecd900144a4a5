-- ===== src/Convert/Cached.antt =====
-- src/instant.rs: `ticks_to_duration` and `duration_to_ticks`, with the load of the scale.
use hotclock.Prelude.{ℕ, Option}
use hotclock.Duration.{Duration}
use hotclock.Machine.{Machine, Run, pure, ◌>>=◌}
use hotclock.Convert.{duration_at, ticks_at}
use hotclock.Arch.Scale.{nanos_per_tick_q32}

unfoldable pub ticks_to_duration : Machine → ℕ → Run Duration
ticks_to_duration m ticks = do q32 ← nanos_per_tick_q32 m; pure (duration_at q32 ticks)

unfoldable pub duration_to_ticks : Machine → Duration → Run (Option ℕ)
duration_to_ticks m d = do q32 ← nanos_per_tick_q32 m; pure (ticks_at q32 d)
