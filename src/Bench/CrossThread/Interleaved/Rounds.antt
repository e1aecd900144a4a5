-- ===== src/Bench/CrossThread/Interleaved/Rounds.antt =====
-- src/bench.rs, `measure_cross_thread`: the threads step by step come to whole rounds, in the order
-- of their `fetch_max`.
use hotclock.Prelude.{
  ℕ, ◌<◌, ◌≡◌, inl, inr, refl, sym, ap, ap₂, ◌∙◌, subst, arith, ==_refl, ==_differ, false, ◌==◌,
  Bool-cases, ltb→lt, not-ltb→le, ==_iff, ltb, max, List, [], ◌∷◌, ◌++◌,
}
use hotclock.Bench.CrossThread.{
  Round, Local, after_round, modify, run, JoinedCounts, join, empty_result, locals,
  measure_cross_thread,
}
use hotclock.Bench.CrossThread.Runs.{IsMadeBy}
use hotclock.Bench.CrossThread.Interleaved.Collected.{
  collect, collect_ext, modify-collect, locals-collect, peak, peak-snoc, run-snoc, All-snoc,
}
use hotclock.Bench.CrossThread.Interleaved.Finishing.{left}
use hotclock.Bench.CrossThread.Interleaved.{
  Pc, checking, reading, finished, publishing, closing, State, at_thread, start, ended, go_on,
  leave, read, publish, close, set_stop, Reach, here, next,
}

-- what the loop over the handles computes, when the threads have returned
abbrev pub outcome : ℕ → State → JoinedCounts
outcome threads s = join empty_result (collect threads s.local)

-- the rounds of a run, in the order of their `fetch_max`
abbrev pub rounds : {clock : ℕ → ℕ → ℕ} {s t : State} → Reach clock s t → List Round
rounds here = []
rounds {clock} (next {t} r (publish i r1 at)) = rounds r ++ (ended clock t i r1 ∷ [])
rounds (next r (go_on i at unset)) = rounds r
rounds (next r (leave i at set)) = rounds r
rounds (next r (read i at)) = rounds r
rounds (next r (close i prev r1 at)) = rounds r
rounds (next r set_stop) = rounds r

-- the locals of a thread, with the round that it is in after its `fetch_max`
abbrev settle : (ℕ → ℕ → ℕ) → ℕ → Pc → ℕ → Local → Local
settle clock i (closing prev r1) k l =
    after_round prev (record { thread = i; r1 = r1; r2 = clock i k }) l
settle clock i _ k l = l

abbrev settled : (ℕ → ℕ → ℕ) → State → ℕ → Local
settled clock s i = settle clock i (s.pcs i) (s.reads i) (s.local i)

-- after some rounds: the shared maximum and the locals are those of the rounds
record IsAfter (clock : ℕ → ℕ → ℕ) (threads : ℕ) (s : State) (es : List Round) : Type 0 where
  pub maximum : s.shared ≡ peak es 0
  pub counted : collect threads (settled clock s) ≡ run es 0 (locals threads)
  pub waiting : (i : ℕ) → ¬ (i < threads) → s.pcs i ≡ finished
  pub made : IsMadeBy threads es

-- a step of a thread that is not finished leaves the others as they are
waiting-at :
    (threads : ℕ) (pcs : ℕ → Pc) (i : ℕ) (pc : Pc)
    → 0 < left (pcs i)
    → ((j : ℕ) → ¬ (j < threads) → pcs j ≡ finished)
    → (j : ℕ) → ¬ (j < threads)
    → at_thread pcs i pc j ≡ finished
waiting-at threads pcs i pc busy waiting j out = elim (Bool-cases (j == i)) [
  | inl e ↦
      let same : left (pcs j) ≡ left (pcs i) = ap (λ k. left (pcs k)) ((==_iff j i).0 e) in
      absurd (omega (arith, busy, same, ap left (waiting j out)))
  | inr e ↦ rw e (waiting j out)
]

busy-made :
    (threads : ℕ) (pcs : ℕ → Pc) (i : ℕ)
    → 0 < left (pcs i)
    → ((j : ℕ) → ¬ (j < threads) → pcs j ≡ finished)
    → i < threads
busy-made threads pcs i busy waiting = elim (Bool-cases (ltb i threads)) [
  | inl e ↦ ltb→lt i threads e
  | inr e ↦ absurd (
      omega
        (arith, busy, ap left (waiting i (λ h. absurd (omega (arith, h, not-ltb→le i threads e))))))
]

-- a step of thread `i` that is no `fetch_max`, and settles nothing new
moved-IsAfter :
    (clock : ℕ → ℕ → ℕ) (threads : ℕ) (s : State) (es : List Round) (i : ℕ) (pc : Pc)
    → (reads : ℕ → ℕ) (local : ℕ → Local) → 0 < left (s.pcs i)
    → settle clock i pc (reads i) (local i) ≡ settled clock s i
    → ((j : ℕ) → (j == i) ≡ false → (reads j ≡ s.reads j) × (local j ≡ s.local j))
    → IsAfter clock threads s es
    → IsAfter clock threads
        (record s { pcs = at_thread s.pcs i pc; reads = reads; local = local })
        es
moved-IsAfter clock threads s es i pc reads local busy same others k = record {
  maximum = k.maximum;
  counted =
      collect_ext threads _ (settled clock s) (λ j _. elim (Bool-cases (j == i)) [
        | inl e ↦ rw e (
            subst (λ n. settle clock n pc (reads n) (local n) ≡ settled clock s n)
              (sym ((==_iff j i).0 e)) same)
        | inr e ↦ rw (e, (others j e).0, (others j e).1) refl
      ])
      ∙ k.counted;
  waiting = waiting-at threads s.pcs i pc busy k.waiting;
  made = k.made;
}

-- the step of thread `i` that is one
publish-IsAfter :
    (clock : ℕ → ℕ → ℕ) (threads : ℕ) (s : State) (es : List Round) (i r1 : ℕ)
    → s.pcs i ≡ publishing r1
    → IsAfter clock threads s es
    → IsAfter clock threads
        (record s { shared = max s.shared r1; pcs = at_thread s.pcs i (closing s.shared r1) })
        (es ++ (ended clock s i r1 ∷ []))
publish-IsAfter clock threads s es i r1 at k =
    let e = ended clock s i r1 in
    let busy : 0 < left (s.pcs i) = rw at (omega arith) in
    record {
      maximum = ap (λ m. max m r1) k.maximum ∙ sym (peak-snoc es e 0);
      counted =
          sym (
            modify-collect threads i (after_round s.shared e) (settled clock s) _
              (rw (==_refl i, at) refl) (λ j differ. rw (==_differ j i differ) refl))
          ∙ ap₂ (λ m ls. modify i (after_round m e) ls) k.maximum k.counted
          ∙ sym (run-snoc es e 0 (locals threads));
      waiting = waiting-at threads s.pcs i _ busy k.waiting;
      made = All-snoc threads es e k.made (busy-made threads s.pcs i busy k.waiting);
    }

start-IsAfter : (clock : ℕ → ℕ → ℕ) (threads : ℕ) → IsAfter clock threads (start threads) []
unfolding run peak
start-IsAfter clock threads = record {
  maximum = refl;
  counted = collect_ext threads _ _ (λ i h. ground (arith, h)) ∙ sym (locals-collect threads);
  waiting = λ i out. ground (arith, out);
  made = tt;
}

reach-IsAfter :
    (clock : ℕ → ℕ → ℕ) (threads : ℕ) (t : State) (r : Reach clock (start threads) t)
    → IsAfter clock threads t (rounds r)
reach-IsAfter clock threads t here = start-IsAfter clock threads
reach-IsAfter clock threads t (next {t = s} r (go_on i at unset)) =
    moved-IsAfter clock threads s (rounds r) i reading s.reads s.local (rw at (omega arith))
      (rw at refl) (λ j e. (refl, refl)) (reach-IsAfter clock threads s r)
reach-IsAfter clock threads t (next {t = s} r (leave i at set)) =
    moved-IsAfter clock threads s (rounds r) i finished s.reads s.local (rw at (omega arith))
      (rw at refl) (λ j e. (refl, refl)) (reach-IsAfter clock threads s r)
reach-IsAfter clock threads t (next {t = s} r (read i at)) =
    moved-IsAfter clock threads s (rounds r) i _ _ s.local (rw at (omega arith)) (rw at refl)
      (λ j e. (rw e refl, refl)) (reach-IsAfter clock threads s r)
reach-IsAfter clock threads t (next {t = s} r (publish i r1 at)) =
    publish-IsAfter clock threads s (rounds r) i r1 at (reach-IsAfter clock threads s r)
reach-IsAfter clock threads t (next {t = s} r (close i prev r1 at)) =
    moved-IsAfter clock threads s (rounds r) i checking _ _ (rw at (omega arith))
      (rw (==_refl i, at) refl) (λ j e. (rw e refl, rw e refl)) (reach-IsAfter clock threads s r)
reach-IsAfter clock threads t (next {t = s} r set_stop) =
    let k = reach-IsAfter clock threads s r in
    record { maximum = k.maximum; counted = k.counted; waiting = k.waiting; made = k.made }

-- In every run of the threads, step by step from their start, to a state where all have left the
-- loop: what the joined threads report is what `measure_cross_thread` gives for the rounds in the
-- order of their `fetch_max`, and each of the rounds is made by one of the threads.
pub interleaved-measure_cross_thread :
    (clock : ℕ → ℕ → ℕ) (threads : ℕ) (t : State) (r : Reach clock (start threads) t)
    → ((i : ℕ) → i < threads → t.pcs i ≡ finished)
    → (outcome threads t ≡ measure_cross_thread threads (rounds r)) × IsMadeBy threads (rounds r)
unfolding measure_cross_thread
interleaved-measure_cross_thread clock threads t r over =
    let k = reach-IsAfter clock threads t r in
    (
      ap (join empty_result)
          (collect_ext threads t.local (settled clock t) (λ i h. rw (over i h) refl) ∙ k.counted),
      k.made,
    )
