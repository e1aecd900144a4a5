-- ===== src/Arch/Race/Solo.antt =====
-- src/arch/mod.rs: a call in one piece, as Arch/Scale.antt has it, is a run of one thread over the
-- steps of Arch/Race.antt.
use native.Mathlib.Decide.{dec_lt}
use hotclock.Prelude.{
  ℕ, ◌≡◌, refl, sym, ap, ◌∙◌, arith, true, false, Option, none, some, inl, inr, ◌==◌, Bool-cases,
  ==_iff, subst,
}
use hotclock.Target.{on_x86_direct}
use hotclock.Machine.{Machine, World, ok}
use hotclock.Background.{spawned, ensured}
use hotclock.Arch.Scale.{scale_of, nanos_per_tick_q32, recalibrate}
use hotclock.Arch.Scale.Cache.{
  started, stored, nanos_per_tick_q32_set, nanos_per_tick_q32_unset, derive_scale-eq_ok,
}
use hotclock.Arch.Scale.Effects.{recalibrate_effect}
use hotclock.Arch.Race.{
  Pc, idle, starting, spawning, returned, Threads, Move, load_set, load_unset, derive, store,
  skip_start, find_set, measure, correct, wait, set_pc, Step, step, enter, leave, Reach, here, next,
}

-- the thread that takes a step
abbrev pub mover : {m : Machine} {s t : Threads} → Step m s t → ℕ
mover (step i move) = i
mover (enter i at on unset free) = i
mover (leave i at) = i

-- every step of the run is one of the thread `i`
abbrev pub IsOwn : {m : Machine} {s t : Threads} → ℕ → Reach m s t → Type 0
IsOwn i here = Unit {0}
IsOwn i (next r st) = IsOwn i r × (mover st ≡ i)

-- A run of steps of the thread `i` alone that brings it to `pc`, the statics to `w` and the lock
-- to `h`, and leaves every other thread where it was.
abbrev pub Solo : Machine → Threads → ℕ → World → Option ℕ → Pc → Type 0
Solo m s i w h pc =
    (t : Threads) × (r : Reach m s t) × IsOwn i r
    × (t.world ≡ w)
    × (t.holder ≡ h)
    × (t.pcs i ≡ pc)
    × ((j : ℕ) → (j == i) ≡ false → t.pcs j ≡ s.pcs j)

set_pc-own : (pcs : ℕ → Pc) (i : ℕ) (pc : Pc) → set_pc pcs i pc i ≡ pc
set_pc-own pcs i pc = rw ((==_iff i i).1 refl)

set_pc-other : (pcs : ℕ → Pc) (i j : ℕ) (pc : Pc) → (j == i) ≡ false → set_pc pcs i pc j ≡ pcs j
set_pc-other pcs i j pc e = rw e

module _ {m : Machine} {s : Threads} {i : ℕ} where
  Solo-Move :
      {w w' : World} {h : Option ℕ} {pc pc' : Pc}
      → Solo m s i w h pc
      → Move m w pc w' pc'
      → Solo m s i w' h pc'
  Solo-Move {w} {w'} {h} {pc} {pc'} (t, r, own_run, ew, eh, ep, others) move =
      let at_w : Move m t.world pc w' pc' = subst (λ x. Move m x pc w' pc') (sym ew) move in
      let own : Move m t.world (t.pcs i) w' pc' =
        subst (λ p. Move m t.world p w' pc') (sym ep) at_w in
      (
        _,
        next r (step i own),
        (own_run, refl),
        refl,
        eh,
        set_pc-own t.pcs i pc',
        λ j e. set_pc-other t.pcs i j pc' e ∙ others j e,
      )

  -- the closure, from its begin to its end
  Solo-closure :
      {w : World} {scale : ℕ}
      → m.recalibrate_background ≡ true
      → w.thread_set ≡ false
      → Solo m s i w none (starting scale)
      → Solo m s i (spawned m w) none (returned scale)
  Solo-closure {w} {scale} on unset (t, r, own_run, ew, eh, ep, others) =
      let clear : t.world.thread_set ≡ false = ap (λ (x : World). x.thread_set) ew ∙ unset in
      let inside : Threads = record {
        world = t.world;
        holder = some i;
        pcs = set_pc t.pcs i (spawning scale);
      } in
      let entered : Reach m s inside = next r (enter i ep on clear eh) in
      (
        _,
        next entered (leave i (set_pc-own t.pcs i (spawning scale))),
        ((own_run, refl), refl),
        ap (spawned m) ew,
        refl,
        set_pc-own inside.pcs i (returned scale),
        λ j e.
            set_pc-other inside.pcs i j (returned scale) e
            ∙ set_pc-other t.pcs i j (spawning scale) e
            ∙ others j e,
      )

-- the three ways through the start of the background thread
started-ways :
    (m : Machine) (w : World)
    → (m.recalibrate_background ≡ false → started m w ≡ w)
      × (m.recalibrate_background ≡ true → w.thread_set ≡ true → started m w ≡ w)
      × (m.recalibrate_background ≡ true → w.thread_set ≡ false → started m w ≡ spawned m w)
unfolding started ensured
started-ways m w = (λ off. rw off, λ on set. rw (on, set), λ on unset. rw (on, unset))

Solo-start :
    (m : Machine) (s : Threads) (i scale : ℕ) (w : World)
    → Solo m s i w none (starting scale)
    → Solo m s i (started m w) none (returned scale)
Solo-start m s i scale w run =
    let (skips, finds, spawns) = started-ways m w in
    let Ends = λ (x : World). Solo m s i x none (returned scale) in
    elim (Bool-cases m.recalibrate_background) [
      | inr off ↦ subst Ends (sym (skips off)) (Solo-Move run (skip_start off))
      | inl on ↦ elim (Bool-cases w.thread_set) [
        | inl set ↦ subst Ends (sym (finds on set)) (Solo-Move run (find_set on set))
        | inr unset ↦ subst Ends (sym (spawns on unset)) (Solo-closure on unset run)
      ]
    ]

-- a thread that has not moved
standing :
    (m : Machine) (s : Threads) (i : ℕ) (pc : Pc) → s.pcs i ≡ pc → Solo m s i s.world s.holder pc
standing m s i pc e = (s, here, tt, refl, refl, e, λ j _. refl)

load-Solo :
    (m : Machine) (s : Threads) (i q : ℕ) (w' : World)
    → s.pcs i ≡ idle
    → s.holder ≡ none
    → nanos_per_tick_q32 m s.world ≡ ok q w'
    → Solo m s i w' none (returned q)
load-Solo m s i q w' out free e =
    let w = s.world in
    let run : Solo m s i w none idle =
      subst (λ h. Solo m s i w h idle) free (standing m s i idle out) in
    elim (dec_lt 0 w.nanos_per_tick_q32) [
      | yes set ↦
          let done = sym (nanos_per_tick_q32_set m w set) ∙ e in
          let same_q : w.nanos_per_tick_q32 ≡ q = cc done in
          let same_w : w ≡ w' = cc done in
          subst (λ x. Solo m s i x none (returned q)) same_w
            (subst (λ n. Solo m s i w none (returned n)) same_q (Solo-Move run (load_set set)))
      | no empty ↦
          let unset : w.nanos_per_tick_q32 ≡ 0 = omega arith in
          let (freq, w₁, read, pos, eq, ew) =
            derive_scale-eq_ok m w w' q (sym (nanos_per_tick_q32_unset m w unset) ∙ e) in
          let divided = Solo-Move (Solo-Move run (load_unset unset)) (derive read pos) in
          let ended =
            Solo-start m s i (scale_of freq) (stored (scale_of freq) w₁)
              (Solo-Move divided store) in
          subst (λ x. Solo m s i x none (returned q)) (sym ew)
            (subst (λ n. Solo m s i (started m (stored (scale_of freq) w₁)) none (returned n))
              (sym eq) ended)
    ]

recalibrate-Solo :
    (m : Machine) (s : Threads) (i : ℕ) (w' : World)
    → s.pcs i ≡ idle
    → s.holder ≡ none
    → recalibrate m s.world ≡ ok tt w'
    → Solo m s i w' none idle
unfolding recalibrate
recalibrate-Solo m s i w' out free e =
    let w = s.world in
    let run : Solo m s i w none idle =
      subst (λ h. Solo m s i w h idle) free (standing m s i idle out) in
    let Ends = λ (x : World). Solo m s i x none idle in
    elim (recalibrate_effect m w w' e) [
      | inl (k, moved) ↦ subst Ends (sym moved) (Solo-Move run (wait k))
      | inr (k, hz, measured, pos, new) ↦ elim (Bool-cases (on_x86_direct m.target)) [
        | inl on ↦
            subst Ends (sym new) (Solo-Move (Solo-Move run (measure on measured pos)) correct)
        | inr off ↦
            let skipped : recalibrate m w ≡ ok tt w = rw off in
            subst Ends (cc (sym skipped ∙ e)) run
      ]
    ]

-- A call in one piece is a run of the step model: where no thread runs the closure of
-- `get_or_init`, and a load and a recalibration taken whole return, a thread outside can by steps
-- of its own alone go through the load, the lazy start and the start of the background thread
-- included, and also through the recalibration, to the result and the statics that the whole call
-- has, with the lock free again and every other thread where it was.
pub calls-Solo :
    (m : Machine) (s : Threads) (i q : ℕ) (w' w'' : World)
    → s.pcs i ≡ idle
    → s.holder ≡ none
    → nanos_per_tick_q32 m s.world ≡ ok q w'
    → recalibrate m s.world ≡ ok tt w''
    → Solo m s i w' none (returned q) × Solo m s i w'' none idle
calls-Solo m s i q w' w'' out free loaded corrected =
    (load-Solo m s i q w' out free loaded, recalibrate-Solo m s i w'' out free corrected)
