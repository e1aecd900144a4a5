-- ===== src/Bench/CrossThread/Histogram.antt =====
-- src/bench.rs, `measure_cross_thread`: the histogram of the violations.
use hotclock.Prelude.{
  ℕ, zero, suc, ◌+◌, ◌-◌, ◌≤◌, ◌<◌, ◌≡◌, refl, arith, max, List, [], ◌∷◌, length, All,
}
use hotclock.Word.{u64_mod, u64_max}
use hotclock.Bench.CrossThread.{
  Round, Local, hist_buckets_ns, count_in, after_round, modify, run, JoinedCounts, joined,
  add_counts, join, empty_result, locals, measure_cross_thread,
}
use hotclock.Bench.CrossThread.Runs.{total, count_bounds, IsMadeBy, total-run-fresh}
use hotclock.Bench.CrossThread.Totals.{violating, after_round-violations, measure_cross_thread_lem}

unfoldable pub sum : List ℕ → ℕ
sum [] = 0
sum (c ∷ cs) = c + sum cs

-- Five counts gain one in all, for every difference of two u64 values.
count_in-sum :
    (counts : List ℕ) (diff : ℕ)
    → length counts ≡ 5
    → sum counts + 1 < u64_mod
    → diff ≤ u64_max
    → (length (count_in hist_buckets_ns counts diff) ≡ 5)
      × (sum (count_in hist_buckets_ns counts diff) ≡ sum counts + 1)
unfolding sum count_in
count_in-sum [] diff five fits h = absurd (omega arith)
count_in-sum (a ∷ []) diff five fits h = absurd (omega arith)
count_in-sum (a ∷ b ∷ []) diff five fits h = absurd (omega arith)
count_in-sum (a ∷ b ∷ c ∷ []) diff five fits h = absurd (omega arith)
count_in-sum (a ∷ b ∷ c ∷ d ∷ []) diff five fits h = absurd (omega arith)
count_in-sum (a ∷ b ∷ c ∷ d ∷ e ∷ []) diff five fits h = ground arith
count_in-sum (a ∷ b ∷ c ∷ d ∷ e ∷ f ∷ r) diff five fits h = absurd (omega arith)

-- a thread whose histogram holds its violations, with room for as many more rounds
record IsKept (more : ℕ) (l : Local) : Type 0 where
  pub five : length l.histogram ≡ 5
  pub whole : sum l.histogram ≡ l.violations
  pub room : l.violations + more < u64_mod

fewer-IsKept : (more : ℕ) (l : Local) → IsKept (suc more) l → IsKept more l
fewer-IsKept more l k = record { five = k.five; whole = k.whole; room = omega (arith, k.room) }

after_round-IsKept :
    (more shared : ℕ) (e : Round) (l : Local)
    → shared < u64_mod
    → IsKept (suc more) l
    → IsKept more (after_round shared e l)
unfolding after_round
after_round-IsKept more shared e l h k =
    let (five, gained) =
      count_in-sum l.histogram (shared - e.r1) k.five (omega (arith, k.room, k.whole))
        (omega arith) in
    record {
      five = ground (arith, k.five, five);
      whole = ground (arith, k.whole, gained, k.room);
      room = ground (arith, k.room);
    }

All-map :
    (P Q : Local → Type 0) → ((l : Local) → P l → Q l) → (ls : List Local) → All P ls → All Q ls
All-map P Q keep [] h = tt
All-map P Q keep (l ∷ ls) h = (keep l h.0, All-map P Q keep ls h.1)

modify-All :
    (P Q : Local → Type 0) (f : Local → Local)
    → ((l : Local) → P l → Q (f l))
    → ((l : Local) → P l → Q l)
    → (i : ℕ) (ls : List Local) → All P ls
    → All Q (modify i f ls)
unfolding modify
modify-All P Q f step keep i [] h = tt
modify-All P Q f step keep zero (l ∷ ls) h = (step l h.0, All-map P Q keep ls h.1)
modify-All P Q f step keep (suc i) (l ∷ ls) h = (keep l h.0, modify-All P Q f step keep i ls h.1)

run-IsKept :
    (es : List Round) (shared : ℕ) (ls : List Local)
    → shared < u64_mod
    → All (λ e. e.r1 < u64_mod) es
    → All (IsKept (length es)) ls
    → All (IsKept 0) (run es shared ls)
unfolding run
run-IsKept [] shared ls h rs k = k
run-IsKept (e ∷ es) shared ls h rs k =
    run-IsKept es (max shared e.r1) (modify e.thread (after_round shared e) ls)
      (omega (arith, rs.0)) rs.1
      (modify-All (IsKept (suc (length es))) (IsKept (length es)) (after_round shared e)
        (λ l. after_round-IsKept (length es) shared e l h) (fewer-IsKept (length es)) e.thread ls k)

-- adding five counts to five
add_counts-sum :
    (counts hist : List ℕ)
    → length counts ≡ length hist
    → sum counts + sum hist < u64_mod
    → (length (add_counts counts hist) ≡ length counts)
      × (sum (add_counts counts hist) ≡ sum counts + sum hist)
unfolding sum add_counts
add_counts-sum [] [] same fits = (refl, refl)
add_counts-sum [] (b ∷ bs) same fits = absurd (omega arith)
add_counts-sum (a ∷ rest) [] same fits = absurd (omega arith)
add_counts-sum (a ∷ rest) (b ∷ bs) same fits =
    let (len, added) = add_counts-sum rest bs (omega arith) (omega arith) in
    (omega (arith, len), omega (arith, added))

join-sum :
    (r : JoinedCounts) (ls : List Local)
    → length r.violation_histogram ≡ 5
    → All (IsKept 0) ls
    → sum r.violation_histogram + total (λ l. l.violations) ls < u64_mod
    → sum (join r ls).violation_histogram ≡ sum r.violation_histogram + total (λ l. l.violations) ls
unfolding join total
join-sum r [] five kept fits = omega arith
join-sum r (l ∷ ls) five kept fits =
    let k = kept.0 in
    let (len, added) =
      add_counts-sum r.violation_histogram l.histogram (omega (arith, k.five))
        (omega (arith, k.whole)) in
    omega (
      arith,
      added,
      k.whole,
      join-sum (joined r l) ls (omega (arith, len)) kept.1 (omega (arith, added, k.whole)),
    )

locals-IsKept : (more n : ℕ) → more < u64_mod → All (IsKept more) (locals n)
unfolding locals sum
locals-IsKept more zero h = tt
locals-IsKept more (suc n) h =
    (record { five = refl; whole = refl; room = omega arith }, locals-IsKept more n h)

-- For every interleaving of fewer than 2^64 rounds of the threads, over a clock that returns u64
-- values, the counts of the histogram add up to the total of the violations: each violation is in
-- exactly one bucket.
pub measure_cross_thread-histogram :
    (threads : ℕ) (rounds : List Round)
    → IsMadeBy threads rounds
    → length rounds < u64_mod
    → All (λ e. e.r1 < u64_mod) rounds
    → let r = measure_cross_thread threads rounds in sum r.violation_histogram ≡ r.total_violations
unfolding measure_cross_thread sum
measure_cross_thread-histogram threads rounds made fits clock =
    let kept =
      run-IsKept rounds 0 (locals threads) (omega arith) clock
        (locals-IsKept (length rounds) threads fits) in
    let found =
      total-run-fresh (λ l. l.violations) violating (λ _ _. ground arith) after_round-violations
        refl threads rounds made fits in
    let less = count_bounds violating (λ _ _. ground arith) rounds 0 in
    let both = join-sum empty_result (run rounds 0 (locals threads)) refl kept (omega arith) in
    let (_, _, violations, _) = measure_cross_thread_lem threads rounds made fits in
    omega (arith, both, found, violations)
