-- ===== src/Arch/Race.antt =====
-- src/arch/mod.rs and src/background.rs: any number of threads inside `nanos_per_tick_q32` and
-- `recalibrate` at once. The atomic load and the atomic store are a step each; the frequency is
-- read in one step, since reading it neither reads nor writes a static. `OnceLock::get_or_init`
-- blocks: one thread at a time runs its closure, a call that finds the cell set returns, and one
-- that comes while the closure runs has no step until it has.
pub mod Lock
pub mod Agreement
pub mod Progress
pub mod Solo
use hotclock.Prelude.{ℕ, ◌<◌, ◌≡◌, true, false, Option, none, some, ◌==◌, if◌then◌else◌}
use hotclock.Target.{on_x86_direct}
use hotclock.Machine.{Machine, World, ok, at_event}
use hotclock.Calibration.{calibrate_frequency}
use hotclock.Arch.Frequency.{read_frequency}
use hotclock.Arch.Scale.{scale_of}
use hotclock.Arch.Scale.Cache.{stored}
use hotclock.Background.{spawned}
use hotclock.Background.Loop.{init}

-- where a thread stands: outside, or after the load, the division, the store of the lazy start,
-- inside the closure of `get_or_init`, after a return of `nanos_per_tick_q32`, or after the
-- measurement of `recalibrate`
pub data Pc : Type 0 where
  idle dividing : Pc
  storing starting spawning returned correcting : (scale : ℕ) → Pc

pub record Threads : Type 0 where
  pub world : World
  -- the thread that runs the closure of `get_or_init`
  pub holder : Option ℕ
  pub pcs : ℕ → Pc

-- one step of one thread, that of `get_or_init` only where it runs no closure: without the feature
-- `recalibrate-background` nothing is called, and with it the cell may be set already
pub data Move (m : Machine) (w : World) : Pc → World → Pc → Type 0 where
  load_set : 0 < w.nanos_per_tick_q32 → Move m w idle w (returned w.nanos_per_tick_q32)
  load_unset : w.nanos_per_tick_q32 ≡ 0 → Move m w idle w dividing
  derive :
      {w' : World} {freq : ℕ}
      → read_frequency m w ≡ ok freq w'
      → 0 < freq
      → Move m w dividing w' (storing (scale_of freq))
  store : {scale : ℕ} → Move m w (storing scale) (stored scale w) (starting scale)
  skip_start :
      {scale : ℕ} → m.recalibrate_background ≡ false → Move m w (starting scale) w (returned scale)
  find_set :
      {scale : ℕ}
      → m.recalibrate_background ≡ true
      → w.thread_set ≡ true
      → Move m w (starting scale) w (returned scale)
  again : {scale : ℕ} → Move m w (returned scale) w idle
  measure :
      {w' : World} {new_hz : ℕ}
      → on_x86_direct m.target ≡ true
      → calibrate_frequency m w ≡ ok new_hz w'
      → 0 < new_hz
      → Move m w idle w' (correcting (scale_of new_hz))
  correct : {scale : ℕ} → Move m w (correcting scale) (stored scale w) idle
  wait : {pc : Pc} (k : ℕ) → Move m w pc (at_event w k) pc

abbrev pub set_pc : (ℕ → Pc) → ℕ → Pc → ℕ → Pc
set_pc pcs i pc j = if j == i then pc else pcs j

-- a step of one thread, the begin of the closure, which needs that no other thread runs it, and its
-- end, which sets the cell
pub data Step (m : Machine) (s : Threads) : Threads → Type 0 where
  step :
      {w' : World} {pc' : Pc} (i : ℕ)
      → Move m s.world (s.pcs i) w' pc'
      → Step m s (record { world = w'; holder = s.holder; pcs = set_pc s.pcs i pc' })
  enter :
      {scale : ℕ} (i : ℕ)
      → s.pcs i ≡ starting scale
      → m.recalibrate_background ≡ true
      → s.world.thread_set ≡ false
      → s.holder ≡ none
      → Step m s
          (record { world = s.world; holder = some i; pcs = set_pc s.pcs i (spawning scale) })
  leave :
      {scale : ℕ} (i : ℕ)
      → s.pcs i ≡ spawning scale
      → Step m s (record {
        world = spawned m s.world;
        holder = none;
        pcs = set_pc s.pcs i (returned scale);
      })

pub data Reach (m : Machine) (s : Threads) : Threads → Type 0 where
  here : Reach m s s
  next : {t u : Threads} → Reach m s t → Step m t u → Reach m s u

-- the statics before the first call, with every thread outside
abbrev pub fresh : Threads
fresh = record { world = init.world; holder = none; pcs = λ i. idle }
