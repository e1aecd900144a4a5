-- ===== src/Arch/Race/Progress.antt =====
-- src/arch/mod.rs and src/background.rs: a thread inside the lazy start of the scale needs four
-- steps of its own, and waits for another one only while that starts the background thread.
use hotclock.Prelude.{
  ℕ, ◌+◌, ◌<◌, ◌≡◌, ◌⊎◌, inl, inr, refl, sym, ap, ◌∙◌, arith, Bool, true, false, none, some, ◌==◌,
  ◌||◌, ◌&&◌, Bool-cases, Option-cases, if◌then◌else◌, ==_iff, subst, ◌≢◌,
}
use hotclock.Machine.{Machine, World, ok}
use hotclock.Arch.Frequency.{read_frequency}
use hotclock.Arch.Race.{
  Pc, idle, dividing, storing, starting, spawning, returned, correcting, Threads, Move, load_set,
  load_unset, derive, store, skip_start, find_set, again, measure, correct, wait, set_pc, Step,
  step, enter, leave, Reach, here, next, fresh,
}
use hotclock.Arch.Race.Lock.{Locked, fresh-Locked, Reach-Locked, holder-spawning}
use hotclock.Background.{spawned}

-- the steps that a thread in the lazy start has left
abbrev pub left : Pc → ℕ
left dividing = 4
left (storing scale) = 3
left (starting scale) = 2
left (spawning scale) = 1
left _ = 0

-- a step of the program, as against the passing of time
abbrev pub weight : {m : Machine} {w w' : World} {pc pc' : Pc} → Move m w pc w' pc' → ℕ
weight (wait k) = 0
weight _ = 1

-- the step that returns from the lazy start
abbrev pub is_return : {m : Machine} {w w' : World} {pc pc' : Pc} → Move m w pc w' pc' → Bool
is_return (skip_start off) = true
is_return (find_set on set) = true
is_return _ = false

-- the part of thread `i` in one step of the program
abbrev pub own_step : {m : Machine} {s t : Threads} → ℕ → Step m s t → ℕ
own_step i (step j move) = if i == j then weight move else 0
own_step i (enter j at on unset free) = if i == j then 1 else 0
own_step i (leave j at) = if i == j then 1 else 0

abbrev pub returns : {m : Machine} {s t : Threads} → ℕ → Step m s t → Bool
returns i (step j move) = (i == j) && is_return move
returns i (enter j at on unset free) = false
returns i (leave j at) = i == j

-- the steps of thread `i` in a run, and whether it returned from the lazy start
abbrev pub own_steps : {m : Machine} {s t : Threads} → ℕ → Reach m s t → ℕ
own_steps i here = 0
own_steps i (next r st) = own_steps i r + own_step i st

abbrev pub has_returned : {m : Machine} {s t : Threads} → ℕ → Reach m s t → Bool
has_returned i here = false
has_returned i (next r st) = has_returned i r || returns i st

-- reading the frequency returns one that is not 0, at any time
abbrev pub Answers : Machine → Type 0
Answers m = (w : World) → (freq : ℕ) × (w' : World) × (read_frequency m w ≡ ok freq w') × (0 < freq)

-- the thread can take a step of the program
abbrev pub Enabled : Machine → Threads → ℕ → Type 0
Enabled m s i = (t : Threads) × (st : Step m s t) × (own_step i st ≡ 1)

-- The thread is at `get_or_init`, whose closure another thread runs; that one can take its last
-- step in it, after which this one can go on.
abbrev pub Waits : Machine → Threads → ℕ → Type 0
Waits m s i =
    (m.recalibrate_background ≡ true)
    × (scale : ℕ) × (s.pcs i ≡ starting scale)
    × (j : ℕ) × (s.holder ≡ some j)
    × (j ≢ i)
    × (t : Threads) × (st : Step m s t) × (own_step j st ≡ 1)
    × Enabled m t i

by-Move :
    {m : Machine} {s : Threads} {w' : World} {pc' : Pc} (i : ℕ) (pc : Pc)
    → s.pcs i ≡ pc
    → (move : Move m s.world pc w' pc') → weight move ≡ 1
    → Enabled m s i
by-Move {m} {s} {w'} {pc'} i pc e move one =
    let Made = λ (p : Pc). (mv : Move m s.world p w' pc') × (weight mv ≡ 1) in
    let (mv, weighs) : Made (s.pcs i) = subst Made (sym e) (move, one) in
    (_, step i mv, rw ((==_iff i i).1 refl) weighs)

-- the thread at `get_or_init`, which no other thread is inside
starting-Enabled :
    (m : Machine) (s : Threads) (i scale : ℕ)
    → s.pcs i ≡ starting scale
    → s.holder ≡ none
    → Enabled m s i
starting-Enabled m s i scale at free = elim (Bool-cases m.recalibrate_background) [
  | inr off ↦ by-Move i (starting scale) at (skip_start off) refl
  | inl on ↦ elim (Bool-cases s.world.thread_set) [
    | inl set ↦ by-Move i (starting scale) at (find_set on set) refl
    | inr unset ↦ (_, enter i at on unset free, rw ((==_iff i i).1 refl))
  ]
]

-- once the thread inside has left
starting-Waits :
    (m : Machine) (s : Threads) (i j scale : ℕ)
    → Locked s
    → m.recalibrate_background ≡ true
    → s.pcs i ≡ starting scale
    → s.holder ≡ some j
    → Waits m s i
starting-Waits m s i j scale l on at held =
    let (inside, within) = holder-spawning s j l held in
    let apart : j ≢ i = λ same. cc (sym at ∙ ap s.pcs (sym same) ∙ within) in
    let other : (i == j) ≡ false = elim (Bool-cases (i == j)) [
      | inl e ↦ absurd (apart (sym ((==_iff i j).0 e)))
      | inr e ↦ e
    ] in
    let t : Threads = record {
      world = spawned m s.world;
      holder = none;
      pcs = set_pc s.pcs j (returned inside);
    } in
    let at' : t.pcs i ≡ starting scale = rw other at in
    (
      on,
      scale,
      at,
      j,
      held,
      apart,
      t,
      leave j within,
      rw ((==_iff j j).1 refl),
      starting-Enabled m t i scale at' refl,
    )

-- what a thread in the lazy start can do next
left-Enabled :
    (m : Machine) (s : Threads) (i : ℕ) (pc : Pc)
    → Answers m
    → Locked s
    → s.pcs i ≡ pc
    → 0 < left pc
    → Enabled m s i ⊎ Waits m s i
left-Enabled m s i dividing answers l e h =
    let (freq, w', e', pos) = answers s.world in inl (by-Move i dividing e (derive e' pos) refl)
left-Enabled m s i (storing scale) answers l e h = inl (by-Move i (storing scale) e store refl)
left-Enabled m s i (starting scale) answers l e h = elim (Option-cases s.holder) [
  | inl free ↦ inl (starting-Enabled m s i scale e free)
  | inr (j, held) ↦ elim (Bool-cases m.recalibrate_background) [
    | inl on ↦ inr (starting-Waits m s i j scale l on e held)
    | inr off ↦ inl (by-Move i (starting scale) e (skip_start off) refl)
  ]
]
left-Enabled m s i (spawning scale) answers l e h = inl (_, leave i e, rw ((==_iff i i).1 refl))
left-Enabled m s i idle answers l e h = absurd (omega arith)
left-Enabled m s i (returned scale) answers l e h = absurd (omega arith)
left-Enabled m s i (correcting scale) answers l e h = absurd (omega arith)

left-Move :
    {m : Machine} {w w' : World} {pc pc' : Pc} (move : Move m w pc w' pc')
    → 0 < left pc
    → (is_return move ≡ true) ⊎ ((0 < left pc') × (weight move + left pc' ≡ left pc))
left-Move (load_set set) h = absurd (omega arith)
left-Move (load_unset unset) h = absurd (omega arith)
left-Move (derive e pos) h = inr (omega arith, omega arith)
left-Move store h = inr (omega arith, omega arith)
left-Move (skip_start off) h = inl refl
left-Move (find_set on set) h = inl refl
left-Move again h = absurd (omega arith)
left-Move (measure on e pos) h = absurd (omega arith)
left-Move correct h = absurd (omega arith)
left-Move (wait k) h = inr (h, omega arith)

-- the state of thread `i` in a run that has not returned it
abbrev pub IsUnderWay : {m : Machine} {s t : Threads} → ℕ → Reach m s t → Type 0
IsUnderWay {t = t} i r = (0 < left (t.pcs i)) × (own_steps i r + left (t.pcs i) ≡ 4)

left-same : (s : Threads) (i j : ℕ) → (i == j) ≡ true → left (s.pcs i) ≡ left (s.pcs j)
left-same s i j e = ap (λ k. left (s.pcs k)) ((==_iff i j).0 e)

left-Step :
    {m : Machine} {s t : Threads} (i : ℕ) (st : Step m s t)
    → 0 < left (s.pcs i)
    → (returns i st ≡ true)
      ⊎ ((0 < left (t.pcs i)) × (own_step i st + left (t.pcs i) ≡ left (s.pcs i)))
left-Step {s = s} i (step {w'} {pc'} j move) h = elim (Bool-cases (i == j)) [
  | inl e ↦
      let same = left-same s i j e in
      elim (left-Move move (omega (arith, same))) [
        | inl done ↦ inl (rw (e, done))
        | inr (pos, sum) ↦ inr (rw e pos, rw e (omega (arith, sum, same)))
      ]
  | inr e ↦ inr (rw e h, rw e (omega arith))
]
left-Step {s = s} i (enter {scale} j at on unset free) h = elim (Bool-cases (i == j)) [
  | inl e ↦ inr (rw e (omega arith), rw e (omega (arith, left-same s i j e, ap left at)))
  | inr e ↦ inr (rw e h, rw e (omega arith))
]
left-Step i (leave j at) h = elim (Bool-cases (i == j)) [
  | inl e ↦ inl e
  | inr e ↦ inr (rw e h, rw e (omega arith))
]

steps_left :
    {m : Machine} {s t : Threads} (i : ℕ) (r : Reach m s t)
    → s.pcs i ≡ dividing
    → (has_returned i r ≡ true) ⊎ IsUnderWay i r
steps_left i here e = inr (omega (arith, ap left e), omega (arith, ap left e))
steps_left i (next r st) e = elim (steps_left i r e) [
  | inl done ↦ inl (rw done)
  | inr (pos, sum) ↦ elim (left-Step i st pos) [
    | inl now ↦ inl (ground (arith, now))
    | inr (pos', sum') ↦ inr (pos', omega (arith, sum, sum'))
  ]
]

-- Where reading the frequency returns a nonzero one: in any run from a state that the fresh statics
-- reach, a thread that begins it at the division of the lazy start has returned by its end, or can
-- take its next step at once, or, under `recalibrate-background` only, waits at `get_or_init` for
-- another thread that can take its last step inside the closure at once, after which the waiting
-- one can go on; and after four steps of its own it has returned.
pub lazy_start_progress :
    (m : Machine) (s t : Threads) (i : ℕ) (before : Reach m fresh s) (r : Reach m s t)
    → Answers m
    → s.pcs i ≡ dividing
    → ((has_returned i r ≡ true) ⊎ (Enabled m t i ⊎ Waits m t i))
      × ((has_returned i r ≡ true) ⊎ (own_steps i r < 4))
lazy_start_progress m s t i before r answers e =
    let l = Reach-Locked (Reach-Locked fresh-Locked before) r in
    elim (steps_left i r e) [
      | inl done ↦ (inl done, inl done)
      | inr (pos, sum) ↦
          (inr (left-Enabled m t i (t.pcs i) answers l refl pos), inr (omega (arith, pos, sum)))
    ]
