-- ===== src/Background/Loop/Safety.antt =====
-- src/background.rs: what holds in every state that the library's calls and the background thread
-- reach.
use hotclock.Prelude.{ℕ, ◌≤◌, ◌<◌, ◌≡◌, inl, inr, refl, sym, ap, arith, false, subst}
use hotclock.Machine.{Machine, World, ok, at_event}
use hotclock.Calibration.{calibrate_frequency}
use hotclock.Background.{set_recalibration_interval, ensured}
use hotclock.Background.Loop.{
  Pc, loading, sleeping, System, init, Call, scaled, recalibrated, configured, waited, Turn, load,
  wake, correct, Step, call, turn, Reach, here, next,
}
use hotclock.Arch.Scale.{nanos_per_tick_q32, recalibrate, nanos_per_second_q32}
use hotclock.Arch.Scale.Accuracy.{scale_of_pos}
use hotclock.Arch.Scale.Effects.{load_effect, recalibrate_effect}
use hotclock.Arch.Scale.Cache.{started, stored}

-- an interval of at least a second, at most one thread, and none before the start
pub record Statics (w : World) : Type 0 where
  pub interval : 1 ≤ w.interval_secs
  pub one_thread : w.threads ≤ 1
  pub unstarted : w.thread_set ≡ false → w.threads ≡ 0

pub same-Statics : {w : World} {k q : ℕ} → Statics w → Statics (stored q (at_event w k))
same-Statics s = record {
  interval = s.interval;
  one_thread = s.one_thread;
  unstarted = s.unstarted;
}

pub started-Statics : (m : Machine) (w : World) → Statics w → Statics (started m w)
unfolding started ensured
started-Statics m w s = ground (arith, s.unstarted)

load-Statics :
    (m : Machine) (w w' : World) (q : ℕ) → nanos_per_tick_q32 m w ≡ ok q w' → Statics w → Statics w'
load-Statics m w w' q e s = elim (load_effect m w w' q e) [
  | inl (_, same) ↦ subst Statics (sym same) s
  | inr (_, k, lazy) ↦
      subst Statics (sym lazy) (started-Statics m (stored q (at_event w k)) (same-Statics s))
]

recalibrate-Statics :
    (m : Machine) (w w' : World) → recalibrate m w ≡ ok tt w' → Statics w → Statics w'
recalibrate-Statics m w w' e s = elim (recalibrate_effect m w w' e) [
  | inl (k, moved) ↦ subst Statics (sym moved) (same-Statics s)
  | inr (k, hz, _, _, new) ↦ subst Statics (sym new) (same-Statics s)
]

Call-Statics : {m : Machine} {w w' : World} → Call m w w' → Statics w → Statics w'
unfolding set_recalibration_interval
Call-Statics {m} {w} {w'} (scaled q e) s = load-Statics m w w' q e s
Call-Statics {m} {w} {w'} (recalibrated e) s = recalibrate-Statics m w w' e s
Call-Statics {m} {w} {w'} (configured d e) s = ground (arith, s.unstarted)
Call-Statics {m} {w} {w'} (waited k) s = same-Statics s

abbrev pub IsNap : Pc → Type 0
IsNap (sleeping secs) = 1 ≤ secs
IsNap _ = Unit {0}

Turn-Statics :
    {m : Machine} {w w' : World} {pc pc' : Pc}
    → Turn m w pc w' pc'
    → Statics w
    → Statics w' × IsNap pc'
Turn-Statics load s = (s, s.interval)
Turn-Statics (wake k) s = (same-Statics s, tt)
Turn-Statics {m} {w} {w'} (correct e) s = (recalibrate-Statics m w w' e s, tt)

Step-Statics :
    {m : Machine} {s t : System}
    → Step m s t
    → Statics s.world × IsNap s.pc
    → Statics t.world × IsNap t.pc
Step-Statics (call c) (s, nap) = (Call-Statics c s, nap)
Step-Statics (turn alive t) (s, nap) = Turn-Statics t s

-- In every state that any sequence of calls and turns of the background thread reaches from the
-- start, the interval is at least one second, at most one background thread runs, none runs before
-- the static THREAD is set, and a thread that sleeps does so for at least one second.
pub Reach-Statics : {m : Machine} {s : System} → Reach m init s → Statics s.world × IsNap s.pc
Reach-Statics here =
    (record { interval = omega arith; one_thread = omega arith; unstarted = λ _. refl }, tt)
Reach-Statics (next r st) = Step-Statics st (Reach-Statics r)

-- No measured frequency is above 10^9 * 2^32 Hz, whose scale would be 0.
abbrev pub IsPlausible : Machine → Type 0
IsPlausible m =
    (w w' : World) (hz : ℕ) → calibrate_frequency m w ≡ ok hz w' → hz ≤ nanos_per_second_q32

-- the scale is set, and the thread was not started
record Missed (w : World) : Type 0 where
  set_scale : 0 < w.nanos_per_tick_q32
  unset_thread : w.thread_set ≡ false
  idle : w.threads ≡ 0

load-Missed :
    (m : Machine) (w w' : World) (q : ℕ) → nanos_per_tick_q32 m w ≡ ok q w' → Missed w → Missed w'
load-Missed m w w' q e s = elim (load_effect m w w' q e) [
  | inl (_, same) ↦ subst Missed (sym same) s
  | inr (unset, _, _) ↦ absurd (omega (arith, s.set_scale))
]

moved_on : {w : World} {k : ℕ} → Missed w → Missed (at_event w k)
moved_on s = record { set_scale = s.set_scale; unset_thread = s.unset_thread; idle = s.idle }

recalibrate-Missed :
    (m : Machine) (w w' : World) → IsPlausible m → recalibrate m w ≡ ok tt w' → Missed w → Missed w'
recalibrate-Missed m w w' plausible e s = elim (recalibrate_effect m w w' e) [
  | inl (k, moved) ↦ subst Missed (sym moved) (moved_on s)
  | inr (k, hz, measured, pos, new) ↦ subst Missed (sym new) (record {
    set_scale = scale_of_pos hz pos (plausible w (at_event w k) hz measured);
    unset_thread = s.unset_thread;
    idle = s.idle;
  })
]

Step-Missed :
    {m : Machine} {s t : System} → IsPlausible m → Step m s t → Missed s.world → Missed t.world
unfolding set_recalibration_interval
Step-Missed {m} {s} {t} p (call (scaled q e)) h = load-Missed m s.world t.world q e h
Step-Missed {m} {s} {t} p (call (recalibrated e)) h = recalibrate-Missed m s.world t.world p e h
Step-Missed p (call (configured d e)) h = ground arith
Step-Missed p (call (waited k)) h = moved_on h
Step-Missed p (turn alive t) h = absurd (omega (arith, h.idle))

Reach-Missed :
    {m : Machine} {s t : System} → IsPlausible m → Missed s.world → Reach m s t → Missed t.world
Reach-Missed p h here = h
Reach-Missed p h (next r st) = Step-Missed p st (Reach-Missed p h r)

first_Missed :
    (m : Machine) (w : World)
    → recalibrate m init.world ≡ ok tt w
    → 0 < w.nanos_per_tick_q32
    → Missed w
first_Missed m w e pos = elim (recalibrate_effect m init.world w e) [
  | inl (k, moved) ↦ absurd (omega (arith, ap (λ (x : World). x.nanos_per_tick_q32) moved))
  | inr (k, hz, _, _, new) ↦ record {
    set_scale = pos;
    unset_thread = ap (λ (x : World). x.thread_set) new;
    idle = ap (λ (x : World). x.threads) new;
  }
]

-- Where the first call of all is a `recalibrate` that sets the scale, and no later measurement is
-- above 10^9 * 2^32 Hz, the background thread is never started: whatever calls follow, with or
-- without the Cargo feature, THREAD stays unset and no thread runs.
pub recalibrate_first :
    (m : Machine) (w : World) {t : System}
    → IsPlausible m
    → recalibrate m init.world ≡ ok tt w
    → 0 < w.nanos_per_tick_q32
    → Reach m (record { world = w; pc = loading }) t
    → (t.world.thread_set ≡ false) × (t.world.threads ≡ 0)
recalibrate_first m w plausible e pos r =
    let end = Reach-Missed plausible (first_Missed m w e pos) r in (end.unset_thread, end.idle)
