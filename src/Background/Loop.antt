-- ===== src/Background/Loop.antt =====
-- src/background.rs and src/arch/mod.rs: the statics over a program's life, as a relation between
-- the states before and after each call, with the background thread as one more party. A call is
-- one step; time and the reads of other code only advance the count of reads.
pub mod Safety
use hotclock.Prelude.{ℕ, ◌≤◌, ◌<◌, ◌≡◌, false}
use hotclock.Duration.{Duration}
use hotclock.Machine.{Machine, World, ok, at_event}
use hotclock.Background.{default_interval_secs, set_recalibration_interval}
use hotclock.Arch.Scale.{nanos_per_tick_q32, recalibrate}

-- where the loop of the background thread stands
pub data Pc : Type 0 where
  loading : Pc
  sleeping : (secs : ℕ) → Pc
  recalibrating : Pc

pub record System : Type 0 where
  pub world : World
  pub pc : Pc

-- the statics before the first call
abbrev pub init : System
init = record {
  world = record {
    event = 0;
    nanos_per_tick_q32 = 0;
    interval_secs = default_interval_secs;
    thread_set = false;
    threads = 0;
  };
  pc = loading;
}

-- One call of the program that reaches a static. `elapsed`, `duration_since` and the arithmetic of
-- both instants reach them only through `nanos_per_tick_q32`.
pub data Call (m : Machine) (w : World) : World → Type 0 where
  scaled : {w' : World} (q : ℕ) → nanos_per_tick_q32 m w ≡ ok q w' → Call m w w'
  recalibrated : {w' : World} → recalibrate m w ≡ ok tt w' → Call m w w'
  configured :
      {w' : World} (interval : Duration)
      → set_recalibration_interval interval w ≡ ok tt w'
      → Call m w w'
  waited : (k : ℕ) → Call m w (at_event w k)

-- One step of the thread's loop: load the interval, sleep for it, recalibrate.
pub data Turn (m : Machine) (w : World) : Pc → World → Pc → Type 0 where
  load : Turn m w loading w (sleeping w.interval_secs)
  wake : {secs : ℕ} (k : ℕ) → Turn m w (sleeping secs) (at_event w k) recalibrating
  correct : {w' : World} → recalibrate m w ≡ ok tt w' → Turn m w recalibrating w' loading

pub data Step (m : Machine) (s : System) : System → Type 0 where
  call : {w' : World} → Call m s.world w' → Step m s (record { world = w'; pc = s.pc })
  turn :
      {w' : World} {pc' : Pc}
      → 0 < s.world.threads
      → Turn m s.world s.pc w' pc'
      → Step m s (record { world = w'; pc = pc' })

pub data Reach (m : Machine) (s : System) : System → Type 0 where
  here : Reach m s s
  next : {t u : System} → Reach m s t → Step m t u → Reach m s u
