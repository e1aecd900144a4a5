-- ===== src/Bench/CrossThread.antt =====
-- src/bench.rs, `measure_cross_thread`: threads that race on a shared maximum.
--
-- The only state that the threads share is `max`, and each round of a thread touches it once, by
-- `fetch_max`. An interleaving is the list of the rounds in the order of their `fetch_max`, each
-- with the thread that makes it and the two reads of the clock around.
pub mod Runs
pub mod Totals
pub mod Histogram
pub mod Interleaved
use hotclock.Prelude.{
  ℕ, zero, suc, ◌+◌, ◌-◌, ◌%◌, ◌^◌, max, List, [], ◌∷◌, ◌++◌, ltb, leb, if◌then◌else◌,
}
use hotclock.Word.{u64_mod, u64_max}

pub record Round : Type 0 where
  pub thread : ℕ
  pub r1 : ℕ
  pub r2 : ℕ

-- what a thread returns
pub record Local : Type 0 where
  pub violations : ℕ
  pub reads : ℕ
  pub max_violation : ℕ
  pub preempt : ℕ
  pub histogram : List ℕ

-- HIST_BUCKETS_NS
abbrev pub hist_buckets_ns : List ℕ
hist_buckets_ns = 50 ∷ 500 ∷ 5_000 ∷ 50_000 ∷ u64_max ∷ []

abbrev pub no_counts : List ℕ
no_counts = 0 ∷ 0 ∷ 0 ∷ 0 ∷ 0 ∷ []

abbrev pub fresh : Local
fresh = record { violations = 0; reads = 0; max_violation = 0; preempt = 0; histogram = no_counts }

abbrev pub increment : ℕ → ℕ
increment n = (n + 1) % u64_mod

-- the loop over the buckets: the first that is not below the difference counts it
unfoldable pub count_in : List ℕ → List ℕ → ℕ → List ℕ
count_in [] counts diff = counts
count_in (upper ∷ uppers) [] diff = []
count_in (upper ∷ uppers) (count ∷ counts) diff =
    let rest = count_in uppers counts diff in
    if leb diff upper then increment count ∷ counts else count ∷ rest

abbrev pub larger : ℕ → ℕ → ℕ
larger diff most = if ltb most diff then diff else most

-- the part of the round after the bracket filter
abbrev pub compared : ℕ → ℕ → Local → Local
compared prev r1 l =
    if ltb r1 prev
    then record l {
      violations = increment l.violations;
      max_violation = larger (prev - r1) l.max_violation;
      histogram = count_in hist_buckets_ns l.histogram (prev - r1);
    }
    else l

-- one round of the `while` loop, where `fetch_max` returned `prev`
unfoldable pub after_round : ℕ → Round → Local → Local
after_round prev e l =
    let counted = record l { reads = increment l.reads } in
    if ltb 10_000 (e.r2 - e.r1)
    then record counted { preempt = increment counted.preempt }
    else compared prev e.r1 counted

-- the local variables of one thread
unfoldable pub modify : ℕ → (Local → Local) → List Local → List Local
modify i f [] = []
modify zero f (l ∷ ls) = f l ∷ ls
modify (suc i) f (l ∷ ls) = l ∷ modify i f ls

-- the rounds of an interleaving, from a value of the shared maximum on
unfoldable pub run : List Round → ℕ → List Local → List Local
run [] shared ls = ls
run (e ∷ es) shared ls = run es (max shared e.r1) (modify e.thread (after_round shared e) ls)

-- the sums over the joined threads
pub record JoinedCounts : Type 0 where
  pub violations_per_thread : List ℕ
  pub total_violations : ℕ
  pub total_reads : ℕ
  pub max_violation_ns : ℕ
  pub preemption_dropped : ℕ
  pub violation_histogram : List ℕ  -- the counts, in the order of the buckets

-- `histogram[i] += hist[i]`
unfoldable pub add_counts : List ℕ → List ℕ → List ℕ
add_counts [] hist = []
add_counts (a ∷ rest) [] = a ∷ rest
add_counts (a ∷ rest) (b ∷ bs) = (a + b) % u64_mod ∷ add_counts rest bs

-- one joined thread
abbrev pub joined : JoinedCounts → Local → JoinedCounts
joined r l = record {
  violations_per_thread = r.violations_per_thread ++ (l.violations ∷ []);
  total_violations = (r.total_violations + l.violations) % u64_mod;
  total_reads = (r.total_reads + l.reads) % u64_mod;
  max_violation_ns = larger l.max_violation r.max_violation_ns;
  preemption_dropped = (r.preemption_dropped + l.preempt) % u64_mod;
  violation_histogram = add_counts r.violation_histogram l.histogram;
}

-- the loop over the handles
unfoldable pub join : JoinedCounts → List Local → JoinedCounts
join r [] = r
join r (l ∷ ls) = join (joined r l) ls

abbrev pub empty_result : JoinedCounts
empty_result = record {
  violations_per_thread = [];
  total_violations = 0;
  total_reads = 0;
  max_violation_ns = 0;
  preemption_dropped = 0;
  violation_histogram = no_counts;
}

unfoldable pub locals : ℕ → List Local
locals zero = []
locals (suc threads) = fresh ∷ locals threads

unfoldable pub measure_cross_thread : ℕ → List Round → JoinedCounts
unfolding run join locals
measure_cross_thread threads rounds = join empty_result (run rounds 0 (locals threads))
