-- ===== src/Background.antt =====
-- src/background.rs: the recalibration interval and the start of the background thread.
pub mod Loop
use hotclock.Prelude.{ℕ, ◌+◌, Bool, true, false, if◌then◌else◌, max}
use hotclock.Duration.{Duration, as_secs}
use hotclock.Machine.{Machine, World, Run, ok}

abbrev pub default_interval_secs : ℕ
default_interval_secs = 60

-- the interval is stored with at least one second
unfoldable pub set_recalibration_interval : Duration → Run (Unit {0})
set_recalibration_interval interval w =
    ok tt (record w { interval_secs = max (as_secs interval) 1 })

-- the closure of `get_or_init`: a failed spawn is ignored
spawn : Machine → World → World
spawn m w = if m.host.spawn_succeeds w.event then record w { threads = w.threads + 1 } else w

-- the closure has run, and the cell is set
unfoldable pub spawned : Machine → World → World
unfolding spawn
spawned m w = record (spawn m w) { thread_set = true }

-- `THREAD.get_or_init`: the closure runs at most once
unfoldable pub ensured : Machine → World → World
unfolding spawned
ensured m w = if w.thread_set then w else spawned m w

unfoldable pub ensure_thread : Machine → Run (Unit {0})
ensure_thread m w = ok tt (ensured m w)
