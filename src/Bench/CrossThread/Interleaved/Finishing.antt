-- ===== src/Bench/CrossThread/Interleaved/Finishing.antt =====
-- src/bench.rs, `measure_cross_thread`: what the threads do once the flag `stop` is set.
use hotclock.Prelude.{
  ℕ, ◌+◌, ◌≤◌, ◌≡◌, ◌⊎◌, inl, inr, refl, ap, arith, true, ◌==◌, Bool-cases, if◌then◌else◌, ==_iff,
}
use hotclock.Bench.CrossThread.Interleaved.{
  Pc, checking, reading, finished, publishing, closing, State, at_thread, Step, go_on, leave, read,
  publish, close, set_stop, Reach, here, next,
}

-- the steps that a thread has left when the flag is set
abbrev pub left : Pc → ℕ
left reading = 4
left (publishing r1) = 3
left (closing prev r1) = 2
left checking = 1
left finished = 0

-- the part of thread `i` in one step
abbrev pub own_step : {clock : ℕ → ℕ → ℕ} {s t : State} → ℕ → Step clock s t → ℕ
own_step i (go_on j at unset) = if i == j then 1 else 0
own_step i (leave j at set) = if i == j then 1 else 0
own_step i (read j at) = if i == j then 1 else 0
own_step i (publish j r1 at) = if i == j then 1 else 0
own_step i (close j prev r1 at) = if i == j then 1 else 0
own_step i set_stop = 0

abbrev pub own_steps : {clock : ℕ → ℕ → ℕ} {s t : State} → ℕ → Reach clock s t → ℕ
own_steps i here = 0
own_steps i (next r st) = own_steps i r + own_step i st

-- thread `i` can take a step
abbrev pub Enabled : (ℕ → ℕ → ℕ) → ℕ → State → Type 0
Enabled clock i s = (t : State) × (st : Step clock s t) × (own_step i st ≡ 1)

left_bounds : (pc : Pc) → left pc ≤ 4
left_bounds checking = omega arith
left_bounds reading = omega arith
left_bounds finished = omega arith
left_bounds (publishing r1) = omega arith
left_bounds (closing prev r1) = omega arith

-- a step of thread `j` from `pc` to `pc'`, where one fewer is left
own-left :
    (pcs : ℕ → Pc) (pc pc' : Pc) (i j : ℕ)
    → pcs j ≡ pc
    → 1 + left pc' ≡ left pc
    → (if i == j then 1 else 0) + left (at_thread pcs j pc' i) ≡ left (pcs i)
own-left pcs pc pc' i j at fewer = elim (Bool-cases (i == j)) [
  | inl e ↦
      let here_i : left (pcs i) ≡ left (pcs j) = ap (λ k. left (pcs k)) ((==_iff i j).0 e) in
      rw e (omega (arith, fewer, here_i, ap left at))
  | inr e ↦ rw e (omega arith)
]

Step-left :
    {clock : ℕ → ℕ → ℕ} {s t : State} (i : ℕ) (st : Step clock s t)
    → s.stop ≡ true
    → (t.stop ≡ true) × (own_step i st + left (t.pcs i) ≡ left (s.pcs i))
Step-left i (go_on j at unset) set = absurd (ground (arith, set, unset))
Step-left {s = s} i (leave j at _) set = (set, own-left s.pcs _ _ i j at (omega arith))
Step-left {s = s} i (read j at) set = (set, own-left s.pcs _ _ i j at (omega arith))
Step-left {s = s} i (publish j r1 at) set = (set, own-left s.pcs _ _ i j at (omega arith))
Step-left {s = s} i (close j prev r1 at) set = (set, own-left s.pcs _ _ i j at (omega arith))
Step-left i set_stop set = (refl, omega arith)

steps_left :
    {clock : ℕ → ℕ → ℕ} {s t : State} (i : ℕ) (r : Reach clock s t)
    → s.stop ≡ true
    → (t.stop ≡ true) × (own_steps i r + left (t.pcs i) ≡ left (s.pcs i))
steps_left i here set = (set, omega arith)
steps_left i (next r st) set =
    let (set', so_far) = steps_left i r set in
    let (set'', once) = Step-left i st set' in (set'', omega (arith, so_far, once))

own-self : (i : ℕ) → ◌≡◌ {A = ℕ} (if i == i then 1 else 0) 1
own-self i = ground arith

finished-or-Enabled :
    (clock : ℕ → ℕ → ℕ) (i : ℕ) (s : State) (pc : Pc)
    → s.pcs i ≡ pc
    → s.stop ≡ true
    → (pc ≡ finished) ⊎ Enabled clock i s
finished-or-Enabled clock i s checking at set = inr (_, leave i at set, own-self i)
finished-or-Enabled clock i s reading at set = inr (_, read i at, own-self i)
finished-or-Enabled clock i s finished at set = inl refl
finished-or-Enabled clock i s (publishing r1) at set = inr (_, publish i r1 at, own-self i)
finished-or-Enabled clock i s (closing prev r1) at set = inr (_, close i prev r1 at, own-self i)

-- In any run of the threads from a state where the flag is set, each thread has left the loop or
-- can take its next step at once, whatever the others do; the steps that it has taken and those
-- that it has left until it leaves the loop make what it had left at first, at most four.
pub threads_finish :
    (clock : ℕ → ℕ → ℕ) (s t : State) (i : ℕ) (r : Reach clock s t)
    → s.stop ≡ true
    → ((t.pcs i ≡ finished) ⊎ Enabled clock i t)
      × (own_steps i r + left (t.pcs i) ≡ left (s.pcs i))
      × (left (s.pcs i) ≤ 4)
threads_finish clock s t i r set =
    let (set', sum) = steps_left i r set in
    (finished-or-Enabled clock i t (t.pcs i) refl set', sum, left_bounds (s.pcs i))
