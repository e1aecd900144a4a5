-- ===== src/Arch/Race/Lock.antt =====
-- src/background.rs, `OnceLock::get_or_init`: one thread at a time runs the closure, and none after
-- the cell is set.
use hotclock.Prelude.{
  ℕ, ◌≡◌, ◌⊎◌, inl, inr, refl, sym, ap, ◌∙◌, Bool, true, false, Option, none, some, ◌==◌,
  Bool-cases, ==_iff, subst,
}
use hotclock.Machine.{Machine, World}
use hotclock.Calibration.Frame.{calibrate_frequency-OnlyReads}
use hotclock.Arch.Frequency.Frame.{read_frequency-OnlyReads}
use hotclock.Arch.Race.{
  Pc, idle, dividing, storing, starting, spawning, returned, correcting, Threads, Move, load_set,
  load_unset, derive, store, skip_start, find_set, again, measure, correct, wait, set_pc, Step,
  step, enter, leave, Reach, here, next, fresh,
}

abbrev pub is_spawning : Pc → Bool
is_spawning (spawning scale) = true
is_spawning _ = false

abbrev pub is_holder : Option ℕ → ℕ → Bool
is_holder none j = false
is_holder (some i) j = j == i

-- exactly the holder is inside the closure, and while it is the cell is unset
pub record Locked (s : Threads) : Type 0 where
  pub held_by : (j : ℕ) → is_spawning (s.pcs j) ≡ is_holder s.holder j
  pub unset : (s.holder ≡ none) ⊎ (s.world.thread_set ≡ false)

Move-is_spawning :
    {m : Machine} {w w' : World} {pc pc' : Pc}
    → Move m w pc w' pc'
    → is_spawning pc' ≡ is_spawning pc
Move-is_spawning (load_set set) = refl
Move-is_spawning (load_unset unset) = refl
Move-is_spawning (derive e pos) = refl
Move-is_spawning store = refl
Move-is_spawning (skip_start off) = refl
Move-is_spawning (find_set on set) = refl
Move-is_spawning again = refl
Move-is_spawning (measure on e pos) = refl
Move-is_spawning correct = refl
Move-is_spawning (wait k) = refl

pub Move-thread_set :
    {m : Machine} {w w' : World} {pc pc' : Pc} → Move m w pc w' pc' → w'.thread_set ≡ w.thread_set
Move-thread_set (load_set set) = refl
Move-thread_set (load_unset unset) = refl
Move-thread_set {m} {w} {w'} (derive {freq = f} e pos) =
    ap (λ (x : World). x.thread_set) ((read_frequency-OnlyReads m).at w f w' e)
Move-thread_set store = refl
Move-thread_set (skip_start off) = refl
Move-thread_set (find_set on set) = refl
Move-thread_set again = refl
Move-thread_set {m} {w} {w'} (measure {new_hz = f} on e pos) =
    ap (λ (x : World). x.thread_set) ((calibrate_frequency-OnlyReads m).at w f w' e)
Move-thread_set correct = refl
Move-thread_set (wait k) = refl

-- what holds of the thread that steps and of every other holds of all after the step
pub set_pc-all :
    (Q : ℕ → Pc → Type 0) (pcs : ℕ → Pc) (i : ℕ) (pc : Pc)
    → Q i pc
    → ((j : ℕ) → (j == i) ≡ false → Q j (pcs j))
    → (j : ℕ) → Q j (set_pc pcs i pc j)
set_pc-all Q pcs i pc own others j = elim (Bool-cases (j == i)) [
  | inl e ↦ rw e (subst (λ k. Q k pc) (sym ((==_iff j i).0 e)) own)
  | inr e ↦ rw e (others j e)
]

is_spawning-eq : (pc : Pc) → is_spawning pc ≡ true → (scale : ℕ) × (pc ≡ spawning scale)
is_spawning-eq (spawning scale) e = (scale, refl)
is_spawning-eq idle e = cc e
is_spawning-eq dividing e = cc e
is_spawning-eq (storing scale) e = cc e
is_spawning-eq (starting scale) e = cc e
is_spawning-eq (returned scale) e = cc e
is_spawning-eq (correcting scale) e = cc e

module _ (s : Threads) (l : Locked s) where
  -- a thread inside the closure is the holder
  spawning-holder : (i scale : ℕ) → s.pcs i ≡ spawning scale → is_holder s.holder i ≡ true
  spawning-holder i scale e = sym (l.held_by i) ∙ ap is_spawning e

holder_unique :
    (h : Option ℕ) (i j : ℕ) → is_holder h i ≡ true → (j == i) ≡ false → is_holder h j ≡ false
holder_unique none i j e other = refl
holder_unique (some k) i j e other = subst (λ n. (j == n) ≡ false) ((==_iff i k).0 e) other

pub Step-Locked : {m : Machine} {s t : Threads} → Locked s → Step m s t → Locked t
Step-Locked {s = s} l (step {w'} {pc'} i move) = record {
  held_by =
      set_pc-all (λ j pc. is_spawning pc ≡ is_holder s.holder j) s.pcs i pc'
        (Move-is_spawning move ∙ l.held_by i) (λ j _. l.held_by j);
  unset = elim l.unset [ inl free ↦ inl free | inr e ↦ inr (Move-thread_set move ∙ e) ];
}
Step-Locked {s = s} l (enter {scale} i at on unset free) = record {
  held_by =
      set_pc-all (λ j pc. is_spawning pc ≡ (j == i)) s.pcs i (spawning scale)
        (sym ((==_iff i i).1 refl)) (λ j e. l.held_by j ∙ ap (λ h. is_holder h j) free ∙ sym e);
  unset = inr unset;
}
Step-Locked {s = s} l (leave {scale} i at) = record {
  held_by =
      set_pc-all (λ j pc. is_spawning pc ≡ false) s.pcs i (returned scale) refl
        (λ j e. l.held_by j ∙ holder_unique s.holder i j (spawning-holder s l i scale at) e);
  unset = inl refl;
}

pub fresh-Locked : Locked fresh
fresh-Locked = record { held_by = λ j. refl; unset = inl refl }

pub Reach-Locked : {m : Machine} {s t : Threads} → Locked s → Reach m s t → Locked t
Reach-Locked l here = l
Reach-Locked l (next r st) = Step-Locked (Reach-Locked l r) st

-- a thread inside the closure finds the cell unset
pub spawning-unset :
    (s : Threads) (i scale : ℕ) → Locked s → s.pcs i ≡ spawning scale → s.world.thread_set ≡ false
spawning-unset s i scale l e = elim l.unset [
  | inr unset ↦ unset
  | inl free ↦
      let held : false ≡ true =
        ap (λ h. is_holder h i) (sym free) ∙ spawning-holder s l i scale e in
      cc held
]

-- the holder is inside the closure
pub holder-spawning :
    (s : Threads) (j : ℕ) → Locked s → s.holder ≡ some j → (scale : ℕ) × (s.pcs j ≡ spawning scale)
holder-spawning s j l e =
    is_spawning-eq (s.pcs j) (l.held_by j ∙ ap (λ h. is_holder h j) e ∙ (==_iff j j).1 refl)
