-- ===== src/Arch/Race/Agreement.antt =====
-- src/arch/mod.rs: what racing threads agree on.
use hotclock.Prelude.{ℕ, ◌≤◌, ◌<◌, ◌≡◌, ◌⊎◌, inl, inr, refl, sym, subst, ◌∙◌, arith, true, false}
use hotclock.Machine.{Machine, World, ok, at_event}
use hotclock.Calibration.{calibrate_frequency}
use hotclock.Calibration.Frame.{calibrate_frequency-OnlyReads}
use hotclock.Arch.Frequency.{read_frequency}
use hotclock.Arch.Frequency.Frame.{read_frequency-OnlyReads}
use hotclock.Arch.Scale.{scale_of, nanos_per_second_q32}
use hotclock.Arch.Scale.Accuracy.{scale_of_pos}
use hotclock.Arch.Race.{
  Pc, idle, dividing, storing, starting, spawning, returned, correcting, Threads, Move, load_set,
  load_unset, derive, store, skip_start, find_set, again, measure, correct, wait, Step, step, enter,
  leave, Reach, here, next, fresh,
}
use hotclock.Arch.Race.Lock.{
  Locked, Move-thread_set, Step-Locked, fresh-Locked, set_pc-all, spawning-unset,
}
use hotclock.Background.{spawned}
use hotclock.Background.Loop.Safety.{Statics, same-Statics}

-- the scale of one of the frequencies in `P`
abbrev pub IsScale : (ℕ → Type 0) → ℕ → Type 0
IsScale P scale = (f : ℕ) × P f × (0 < f) × (f ≤ nanos_per_second_q32) × (scale ≡ scale_of f)

-- Every frequency that the host may report or the calibration may measure, 0 aside, is in `P`, and
-- none is above 10^9 * 2^32 Hz.
pub record Reports (m : Machine) (P : ℕ → Type 0) : Type 0 where
  pub read :
      (w w' : World) (f : ℕ)
      → read_frequency m w ≡ ok f w'
      → 0 < f
      → P f × (f ≤ nanos_per_second_q32)
  pub measured :
      (w w' : World) (f : ℕ)
      → calibrate_frequency m w ≡ ok f w'
      → 0 < f
      → P f × (f ≤ nanos_per_second_q32)

-- what a thread holds; after its own store, or a load that found a scale, the cache is set
abbrev pub Holds : (ℕ → Type 0) → World → Pc → Type 0
Holds P w idle = Unit {0}
Holds P w dividing = Unit {0}
Holds P w (storing scale) = IsScale P scale
Holds P w (starting scale) = IsScale P scale × (0 < w.nanos_per_tick_q32)
Holds P w (spawning scale) = IsScale P scale × (0 < w.nanos_per_tick_q32)
Holds P w (returned scale) = IsScale P scale × (0 < w.nanos_per_tick_q32)
Holds P w (correcting scale) = IsScale P scale

pub record Agreed (P : ℕ → Type 0) (s : Threads) : Type 0 where
  pub cache : (s.world.nanos_per_tick_q32 ≡ 0) ⊎ IsScale P s.world.nanos_per_tick_q32
  pub held : (i : ℕ) → Holds P s.world (s.pcs i)
  pub statics : Statics s.world
  -- the scale is stored before the cell of the background thread is set
  pub stored_first : s.world.thread_set ≡ true → 0 < s.world.nanos_per_tick_q32
  pub lock : Locked s

IsScale-pos : (P : ℕ → Type 0) (scale : ℕ) → IsScale P scale → 0 < scale
IsScale-pos P scale (f, p, pos, most, e) = omega (arith, scale_of_pos f pos most)

Holds-later :
    (P : ℕ → Type 0) (w w' : World) (pc : Pc)
    → (0 < w.nanos_per_tick_q32 → 0 < w'.nanos_per_tick_q32)
    → Holds P w pc
    → Holds P w' pc
Holds-later P w w' idle k h = tt
Holds-later P w w' dividing k h = tt
Holds-later P w w' (storing s) k h = h
Holds-later P w w' (starting s) k (h, set) = (h, k set)
Holds-later P w w' (spawning s) k (h, set) = (h, k set)
Holds-later P w w' (returned s) k (h, set) = (h, k set)
Holds-later P w w' (correcting s) k h = h

-- what one thread's step does to the statics, and what the thread holds after it
record Moved (P : ℕ → Type 0) (w w' : World) (pc' : Pc) : Type 0 where
  pub cache : (w'.nanos_per_tick_q32 ≡ 0) ⊎ IsScale P w'.nanos_per_tick_q32
  pub keeps : 0 < w.nanos_per_tick_q32 → 0 < w'.nanos_per_tick_q32
  pub holds : Holds P w' pc'
  pub statics : Statics w'

-- a step that only reads the host
reading-Moved :
    (P : ℕ → Type 0) (w w' : World) (pc' : Pc)
    → w' ≡ at_event w w'.event
    → (w.nanos_per_tick_q32 ≡ 0) ⊎ IsScale P w.nanos_per_tick_q32
    → Statics w
    → Holds P w' pc'
    → Moved P w w' pc'
reading-Moved P w w' pc' same c s h = record {
  cache =
      subst (λ (x : World). (x.nanos_per_tick_q32 ≡ 0) ⊎ IsScale P x.nanos_per_tick_q32) (sym same)
        c;
  keeps = λ k. subst (λ (x : World). 0 < x.nanos_per_tick_q32) (sym same) k;
  holds = h;
  statics = subst Statics (sym same) (same-Statics s);
}

Move-Moved :
    {m : Machine} {P : ℕ → Type 0} {w w' : World} {pc pc' : Pc}
    → Reports m P
    → (w.nanos_per_tick_q32 ≡ 0) ⊎ IsScale P w.nanos_per_tick_q32
    → Statics w
    → Holds P w pc
    → Move m w pc w' pc'
    → Moved P w w' pc'
Move-Moved {w = w} rep c s h (load_set set) = record {
  cache = c;
  keeps = λ k. k;
  holds = (elim c [ inl z ↦ absurd (omega arith) | inr a ↦ a ], set);
  statics = s;
}
Move-Moved rep c s h (load_unset unset) = record {
  cache = c;
  keeps = λ k. k;
  holds = tt;
  statics = s;
}
Move-Moved {m} {P} {w} {w'} rep c s h (derive {freq = f} e pos) =
    let (p, most) = rep.read w w' f e pos in
    reading-Moved P w w' (storing (scale_of f)) ((read_frequency-OnlyReads m).at w f w' e) c s
      (f, p, pos, most, refl)
Move-Moved {m} {P} {w} {w'} rep c s h (store {scale = q}) = record {
  cache = inr h;
  keeps = λ k. IsScale-pos P q h;
  holds = (h, IsScale-pos P q h);
  statics = same-Statics s;
}
Move-Moved rep c s h (skip_start off) = record { cache = c; keeps = λ k. k; holds = h; statics = s }
Move-Moved rep c s h (find_set on set) = record {
  cache = c;
  keeps = λ k. k;
  holds = h;
  statics = s;
}
Move-Moved rep c s h again = record { cache = c; keeps = λ k. k; holds = tt; statics = s }
Move-Moved {m} {P} {w} {w'} rep c s h (measure {new_hz = f} on e pos) =
    let (p, most) = rep.measured w w' f e pos in
    reading-Moved P w w' (correcting (scale_of f)) ((calibrate_frequency-OnlyReads m).at w f w' e) c
      s (f, p, pos, most, refl)
Move-Moved {m} {P} {w} {w'} rep c s h (correct {scale = q}) = record {
  cache = inr h;
  keeps = λ k. IsScale-pos P q h;
  holds = tt;
  statics = same-Statics s;
}
Move-Moved {m} {P} {w} {w'} {pc} rep c s h (wait k) = record {
  cache = c;
  keeps = λ k. k;
  holds = Holds-later P w (at_event w k) pc (λ z. z) h;
  statics = same-Statics s;
}

-- the end of the closure: one background thread at most, and the cache as it was
spawned-keeps : (m : Machine) (w : World) → (spawned m w).nanos_per_tick_q32 ≡ w.nanos_per_tick_q32
unfolding spawned
spawned-keeps m w = ground arith

spawned-Statics :
    (m : Machine) (w : World) → w.thread_set ≡ false → Statics w → Statics (spawned m w)
unfolding spawned
spawned-Statics m w unset s = ground (arith, s.unstarted)

Step-Agreed :
    {m : Machine} {P : ℕ → Type 0} {s t : Threads}
    → Reports m P
    → Agreed P s
    → Step m s t
    → Agreed P t
Step-Agreed {P = P} {s = s} rep a (step {w'} {pc'} i move) =
    let moved = Move-Moved rep a.cache a.statics (a.held i) move in
    record {
      cache = moved.cache;
      held =
          set_pc-all (λ j pc. Holds P w' pc) s.pcs i pc' moved.holds
            (λ j _. Holds-later P s.world w' (s.pcs j) moved.keeps (a.held j));
      statics = moved.statics;
      stored_first = λ set. moved.keeps (a.stored_first (sym (Move-thread_set move) ∙ set));
      lock = Step-Locked a.lock (step i move);
    }
Step-Agreed {m} {P} {s} rep a (enter {scale} i at on unset free) =
    let own : Holds P s.world (starting scale) = subst (Holds P s.world) at (a.held i) in
    record {
      cache = a.cache;
      held = set_pc-all (λ j pc. Holds P s.world pc) s.pcs i (spawning scale) own (λ j _. a.held j);
      statics = a.statics;
      stored_first = a.stored_first;
      lock = Step-Locked {m = m} a.lock (enter i at on unset free);
    }
Step-Agreed {m} {P} {s} rep a (leave {scale} i at) =
    let w' = spawned m s.world in
    let same = spawned-keeps m s.world in
    let own : Holds P s.world (spawning scale) = subst (Holds P s.world) at (a.held i) in
    let keeps : 0 < s.world.nanos_per_tick_q32 → 0 < w'.nanos_per_tick_q32 =
      λ set. omega (arith, same, set) in
    record {
      cache = subst (λ x. (x ≡ 0) ⊎ IsScale P x) (sym same) a.cache;
      held =
          set_pc-all (λ j pc. Holds P w' pc) s.pcs i (returned scale) (own.0, keeps own.1)
            (λ j _. Holds-later P s.world w' (s.pcs j) keeps (a.held j));
      statics = spawned-Statics m s.world (spawning-unset s i scale a.lock at) a.statics;
      stored_first = λ _. keeps own.1;
      lock = Step-Locked {m = m} a.lock (leave i at);
    }

-- However the threads interleave, and with any recalibrations between: if every frequency that the
-- host reports or the calibration measures, 0 aside, is in `P` and at most 10^9 * 2^32 Hz, then the
-- cache is unset or holds the scale of one in `P`, and every scale that a call returns is such a
-- scale, never 0, and leaves the cache set. A scale is stored before the background thread is
-- started, exactly the thread that holds the lock of the start is inside its closure, none is once
-- it has run, and at most one background thread runs.
pub Reach-Agreed :
    (m : Machine) (P : ℕ → Type 0) {s : Threads} → Reports m P → Reach m fresh s → Agreed P s
Reach-Agreed m P rep here = record {
  cache = inl refl;
  held = λ i. tt;
  statics = record { interval = omega arith; one_thread = omega arith; unstarted = λ _. refl };
  stored_first = λ set. cc set;
  lock = fresh-Locked;
}
Reach-Agreed m P rep (next r st) = Step-Agreed rep (Reach-Agreed m P rep r) st
