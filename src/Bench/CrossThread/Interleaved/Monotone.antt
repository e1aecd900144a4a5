-- ===== src/Bench/CrossThread/Interleaved/Monotone.antt =====
-- src/bench.rs, `measure_cross_thread`: the threads over a clock that never goes back.
use hotclock.Prelude.{ℕ, zero, suc, ◌≤◌, subst, arith, ◌==◌, Bool-cases, inl, inr, ltb}
use hotclock.Bench.CrossThread.{Round, Local, after_round, joined, join, empty_result, JoinedCounts}
use hotclock.Bench.CrossThread.Totals.{shortfall, after_round-max}
use hotclock.Bench.CrossThread.Interleaved.{
  Pc, checking, reading, finished, publishing, closing, State, at_thread, start, ended, go_on,
  leave, read, publish, close, set_stop, Reach, here, next,
}
use hotclock.Bench.CrossThread.Interleaved.Collected.{collect}
use hotclock.Bench.CrossThread.Interleaved.Rounds.{outcome}

-- the last number that any thread got from the clock
abbrev pub latest : {clock : ℕ → ℕ → ℕ} {s t : State} → Reach clock s t → ℕ
latest here = 0
latest {clock} (next {t} r (read i at)) = clock i (t.reads i)
latest {clock} (next {t} r (close i prev r1 at)) = clock i (t.reads i)
latest (next r (go_on i at unset)) = latest r
latest (next r (leave i at set)) = latest r
latest (next r (publish i r1 at)) = latest r
latest (next r set_stop) = latest r

-- no thread gets a number below one that any thread got before
abbrev pub IsMonotone : {clock : ℕ → ℕ → ℕ} {s t : State} → Reach clock s t → Type 0
IsMonotone here = Unit {0}
IsMonotone {clock} (next {t} r (read i at)) = (latest r ≤ clock i (t.reads i)) × IsMonotone r
IsMonotone {clock} (next {t} r (close i prev r1 at)) =
    (latest r ≤ clock i (t.reads i)) × IsMonotone r
IsMonotone (next r (go_on i at unset)) = IsMonotone r
IsMonotone (next r (leave i at set)) = IsMonotone r
IsMonotone (next r (publish i r1 at)) = IsMonotone r
IsMonotone (next r set_stop) = IsMonotone r

-- what a thread holds is not above `m`
abbrev IsBelow : ℕ → Pc → Type 0
IsBelow m (publishing r1) = r1 ≤ m
IsBelow m (closing prev r1) = prev ≤ m
IsBelow m _ = Unit {0}

IsBelow-mono : (m m' : ℕ) (pc : Pc) → m ≤ m' → IsBelow m pc → IsBelow m' pc
IsBelow-mono m m' checking le h = tt
IsBelow-mono m m' reading le h = tt
IsBelow-mono m m' finished le h = tt
IsBelow-mono m m' (publishing r1) le h = omega arith
IsBelow-mono m m' (closing prev r1) le h = omega arith

record IsQuiet (s : State) (m : ℕ) : Type 0 where
  pub shared_below : s.shared ≤ m
  pub pcs_below : (i : ℕ) → IsBelow m (s.pcs i)
  pub small : (i : ℕ) → (s.local i).max_violation ≤ 10_000

-- a family that has a property keeps it where one value is replaced
at_thread-keeps {ℓ κ} :
    {A : Type ℓ} (P : A → Type κ) (f : ℕ → A) (i : ℕ) (a : A)
    → P a
    → ((j : ℕ) → P (f j))
    → (j : ℕ) → P (at_thread f i a j)
at_thread-keeps P f i a new old j = elim (Bool-cases (j == i)) [
  | inl e ↦ rw e new
  | inr e ↦ rw e (old j)
]

-- a round that is closed by a read not below what `fetch_max` returned
after_round-small :
    (prev i r1 r2 : ℕ) (l : Local)
    → prev ≤ r2
    → l.max_violation ≤ 10_000
    → (after_round prev (record { thread = i; r1 = r1; r2 = r2 }) l).max_violation ≤ 10_000
after_round-small prev i r1 r2 l le small =
    let e : Round = record { thread = i; r1 = r1; r2 = r2 } in
    let short : shortfall prev e ≤ 10_000 = ground arith in
    omega (arith, after_round-max prev e l, short)

reach-IsQuiet :
    (clock : ℕ → ℕ → ℕ) (threads : ℕ) (t : State) (r : Reach clock (start threads) t)
    → IsMonotone r
    → IsQuiet t (latest r)
reach-IsQuiet clock threads t here mono = record {
  shared_below = omega arith;
  pcs_below = λ i. elim (Bool-cases (ltb i threads)) [ inl e ↦ rw e tt | inr e ↦ rw e tt ];
  small = λ i. omega arith;
}
reach-IsQuiet clock threads t (next {t = s} r (go_on i at unset)) mono =
    let q = reach-IsQuiet clock threads s r mono in
    record {
      shared_below = q.shared_below;
      pcs_below = at_thread-keeps (IsBelow (latest r)) s.pcs i reading tt q.pcs_below;
      small = q.small;
    }
reach-IsQuiet clock threads t (next {t = s} r (leave i at set)) mono =
    let q = reach-IsQuiet clock threads s r mono in
    record {
      shared_below = q.shared_below;
      pcs_below = at_thread-keeps (IsBelow (latest r)) s.pcs i finished tt q.pcs_below;
      small = q.small;
    }
reach-IsQuiet clock threads t (next {t = s} r (read i at)) (up, mono) =
    let q = reach-IsQuiet clock threads s r mono in
    let m = clock i (s.reads i) in
    record {
      shared_below = omega (arith, q.shared_below, up);
      pcs_below =
          at_thread-keeps (IsBelow m) s.pcs i (publishing m) (omega arith)
            (λ j. IsBelow-mono (latest r) m (s.pcs j) up (q.pcs_below j));
      small = q.small;
    }
reach-IsQuiet clock threads t (next {t = s} r (publish i r1 at)) mono =
    let q = reach-IsQuiet clock threads s r mono in
    let below : IsBelow (latest r) (publishing r1) =
      subst (IsBelow (latest r)) at (q.pcs_below i) in
    record {
      shared_below = omega (arith, q.shared_below, below);
      pcs_below =
          at_thread-keeps (IsBelow (latest r)) s.pcs i (closing s.shared r1) q.shared_below
            q.pcs_below;
      small = q.small;
    }
reach-IsQuiet clock threads t (next {t = s} r (close i prev r1 at)) (up, mono) =
    let q = reach-IsQuiet clock threads s r mono in
    let m = clock i (s.reads i) in
    let below : IsBelow (latest r) (closing prev r1) =
      subst (IsBelow (latest r)) at (q.pcs_below i) in
    record {
      shared_below = omega (arith, q.shared_below, up);
      pcs_below =
          at_thread-keeps (IsBelow m) s.pcs i checking tt
            (λ j. IsBelow-mono (latest r) m (s.pcs j) up (q.pcs_below j));
      small =
          at_thread-keeps (λ l. l.max_violation ≤ 10_000) s.local i
            (after_round prev (ended clock s i r1) (s.local i))
            (after_round-small prev i r1 m (s.local i) (omega (arith, below, up)) (q.small i))
            q.small;
    }
reach-IsQuiet clock threads t (next {t = s} r set_stop) mono =
    let q = reach-IsQuiet clock threads s r mono in
    record { shared_below = q.shared_below; pcs_below = q.pcs_below; small = q.small }

join-small :
    (n : ℕ) (r : JoinedCounts) (f : ℕ → Local)
    → r.max_violation_ns ≤ 10_000
    → ((i : ℕ) → (f i).max_violation ≤ 10_000)
    → (join r (collect n f)).max_violation_ns ≤ 10_000
unfolding join collect
join-small zero r f most small = most
join-small (suc n) r f most small =
    let first : (joined r (f 0)).max_violation_ns ≤ 10_000 = ground (arith, small 0) in
    join-small n (joined r (f 0)) (λ i. f (suc i)) first (λ i. small (suc i))

-- In every run of the threads over a clock that never goes back, in the order in which the threads
-- read it: the largest violation reported is at most 10 µs, the width of the bracket filter.
pub max_violation_bounded :
    (clock : ℕ → ℕ → ℕ) (threads : ℕ) (t : State) (r : Reach clock (start threads) t)
    → IsMonotone r
    → (outcome threads t).max_violation_ns ≤ 10_000
max_violation_bounded clock threads t r mono =
    let q = reach-IsQuiet clock threads t r mono in
    join-small threads empty_result t.local (omega arith) q.small
