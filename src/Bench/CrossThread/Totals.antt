-- ===== src/Bench/CrossThread/Totals.antt =====
-- src/bench.rs, `measure_cross_thread`: the totals over the threads, whatever the interleaving.
use hotclock.Prelude.{
  ℕ, zero, suc, ◌+◌, ◌-◌, ◌<◌, ◌≡◌, refl, sym, subst, arith, max, List, [], ◌∷◌, length, ltb,
  if◌then◌else◌,
}
use hotclock.Word.{u64_mod}
use hotclock.Bench.CrossThread.{
  Round, Local, after_round, modify, run, JoinedCounts, joined, join, empty_result, locals,
  measure_cross_thread,
}
use hotclock.Bench.CrossThread.Runs.{
  total, count, IsMadeBy, length-modify, length-locals, count_bounds, total-run-fresh,
}

-- the largest of a field over the threads, and over an interleaving
top : List Local → ℕ
top [] = 0
top (l ∷ ls) = max l.max_violation (top ls)

unfoldable pub largest : (ℕ → Round → ℕ) → ℕ → List Round → ℕ
largest δ shared [] = 0
largest δ shared (e ∷ es) = max (δ shared e) (largest δ (max shared e.r1) es)

-- a round whose two reads are more than 10 µs apart
abbrev pub preempted : ℕ → Round → ℕ
preempted shared e = if ltb 10_000 (e.r2 - e.r1) then 1 else 0

-- how far a round that is not dropped reads below the shared maximum
abbrev pub shortfall : ℕ → Round → ℕ
shortfall shared e = if ltb 10_000 (e.r2 - e.r1) then 0 else shared - e.r1

-- a round that is not dropped and reads below the shared maximum
abbrev pub violating : ℕ → Round → ℕ
violating shared e = if ltb 0 (shortfall shared e) then 1 else 0

after_round-reads :
    (shared : ℕ) (e : Round) (l : Local)
    → l.reads + 1 < u64_mod
    → (after_round shared e l).reads ≡ l.reads + 1
unfolding after_round
after_round-reads shared e l h = ground arith

after_round-preempt :
    (shared : ℕ) (e : Round) (l : Local)
    → l.preempt + 1 < u64_mod
    → (after_round shared e l).preempt ≡ l.preempt + preempted shared e
unfolding after_round
after_round-preempt shared e l h = ground arith

pub after_round-violations :
    (shared : ℕ) (e : Round) (l : Local)
    → l.violations + 1 < u64_mod
    → (after_round shared e l).violations ≡ l.violations + violating shared e
unfolding after_round
after_round-violations shared e l h = ground arith

pub after_round-max :
    (shared : ℕ) (e : Round) (l : Local)
    → (after_round shared e l).max_violation ≡ max l.max_violation (shortfall shared e)
unfolding after_round
after_round-max shared e l = ground arith

top-modify :
    (f : Local → Local) (d i : ℕ) (ls : List Local)
    → i < length ls
    → ((l : Local) → (f l).max_violation ≡ max l.max_violation d)
    → top (modify i f ls) ≡ max (top ls) d
unfolding top modify
top-modify f d i [] h step = absurd (omega arith)
top-modify f d zero (l ∷ ls) h step = omega (arith, step l)
top-modify f d (suc i) (l ∷ ls) h step = omega (arith, top-modify f d i ls (omega arith) step)

top-run :
    (es : List Round) (shared : ℕ) (ls : List Local)
    → IsMadeBy (length ls) es
    → top (run es shared ls) ≡ max (top ls) (largest shortfall shared es)
unfolding largest run
top-run [] shared ls made = omega arith
top-run (e ∷ es) shared ls made =
    let ls' = modify e.thread (after_round shared e) ls in
    let once =
      top-modify (after_round shared e) (shortfall shared e) e.thread ls made.0
        (after_round-max shared e) in
    let rest = top-run es (max shared e.r1) ls' (
      subst (λ n. IsMadeBy n es) (sym (length-modify e.thread (after_round shared e) ls)) made.1) in
    omega (arith, once, rest)

-- the threads' fields in the result
join-fields :
    (r : JoinedCounts) (ls : List Local)
    → r.total_reads + total (λ l. l.reads) ls < u64_mod
    → r.total_violations + total (λ l. l.violations) ls < u64_mod
    → r.preemption_dropped + total (λ l. l.preempt) ls < u64_mod
    → ((join r ls).total_reads ≡ r.total_reads + total (λ l. l.reads) ls)
      × ((join r ls).total_violations ≡ r.total_violations + total (λ l. l.violations) ls)
      × ((join r ls).preemption_dropped ≡ r.preemption_dropped + total (λ l. l.preempt) ls)
      × ((join r ls).max_violation_ns ≡ max r.max_violation_ns (top ls))
unfolding total top join
join-fields r [] a b c = (omega arith, omega arith, omega arith, omega arith)
join-fields r (l ∷ ls) a b c =
    let (p, q, s, t) = join-fields (joined r l) ls (omega arith) (omega arith) (omega arith) in
    (omega (arith, p), omega (arith, q), omega (arith, s), ground (arith, t))

top-locals : (n : ℕ) → top (locals n) ≡ 0
unfolding top locals
top-locals zero = refl
top-locals (suc n) = omega (arith, top-locals n)

count-one : (es : List Round) (shared : ℕ) → count (λ _ _. 1) shared es ≡ length es
unfolding count
count-one [] shared = refl
count-one (e ∷ es) shared = omega (arith, count-one es (max shared e.r1))

-- For every interleaving of fewer than 2^64 rounds of the threads, the result counts what one
-- observer of the whole interleaving would: all rounds, the rounds dropped for their bracket, and
-- of the others those that read below the maximum published before them, with the largest
-- shortfall. Which thread made which round has no part in it.
pub measure_cross_thread_lem :
    (threads : ℕ) (rounds : List Round)
    → IsMadeBy threads rounds
    → length rounds < u64_mod
    → let r = measure_cross_thread threads rounds in
      (r.total_reads ≡ length rounds)
      × (r.preemption_dropped ≡ count preempted 0 rounds)
      × (r.total_violations ≡ count violating 0 rounds)
      × (r.max_violation_ns ≡ largest shortfall 0 rounds)
unfolding measure_cross_thread
measure_cross_thread_lem threads rounds made fits =
    let final = run rounds 0 (locals threads) in
    let reads =
      total-run-fresh (λ l. l.reads) (λ _ _. 1) (λ _ _. omega arith) after_round-reads refl threads
        rounds made fits in
    let dropped =
      total-run-fresh (λ l. l.preempt) preempted (λ _ _. ground arith) after_round-preempt refl
        threads rounds made fits in
    let found =
      total-run-fresh (λ l. l.violations) violating (λ _ _. ground arith) after_round-violations
        refl threads rounds made fits in
    let few = count_bounds preempted (λ _ _. ground arith) rounds 0 in
    let less = count_bounds violating (λ _ _. ground arith) rounds 0 in
    let most =
      top-run rounds 0 (locals threads)
        (subst (λ n. IsMadeBy n rounds) (sym (length-locals threads)) made) in
    let one = count-one rounds 0 in
    let (a, b, c, d) = join-fields empty_result final (omega arith) (omega arith) (omega arith) in
    (
      omega (arith, a, reads, one),
      omega (arith, c, dropped),
      omega (arith, b, found),
      omega (arith, d, most, top-locals threads),
    )
