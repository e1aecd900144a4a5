-- ===== src/Bench/Skew/Ratios.antt =====
-- src/bench.rs, `measure_skew`: the median of the skews, in the order of i64, and the sample that
-- its ratio belongs to.
use hotclock.Prelude.{
  ℕ, zero, suc, ◌+◌, ◌/◌, ◌≤◌, ◌<◌, ◌≡◌, refl, sym, ap, ◌∙◌, arith, Bool, true, some, List, [], ◌∷◌,
  leb, if◌then◌else◌, Bool-cases, inl, inr, All, length, get_elem?, subst,
}
use hotclock.Bench.Skew.{
  Reads, SkewSample, signed, insert, sort_unstable, first_or_zero, last_or, SkewFigures,
  all_samples, skews, result_at, measure_skew,
}
use hotclock.Word.Floats.{F64}
use hotclock.Bench.Skew.Order.{
  IsSorted, sort_unstable-IsSorted, length-skews, length-all_samples, length-sort_unstable,
  get_elem?-found,
}

-- how many numbers pass a test
abbrev pub count_if : (ℕ → Bool) → List ℕ → ℕ
count_if p [] = 0
count_if p (x ∷ xs) = (if p x then 1 else 0) + count_if p xs

-- at most a number, and at least it, as i64
abbrev pub is_at_most : ℕ → ℕ → Bool
is_at_most v z = leb (signed z) (signed v)

abbrev pub is_at_least : ℕ → ℕ → Bool
is_at_least v z = leb (signed v) (signed z)

count_if-insert :
    (p : ℕ → Bool) (x : ℕ) (ys : List ℕ) → count_if p (insert x ys) ≡ count_if p (x ∷ ys)
unfolding insert
count_if-insert p x [] = refl
count_if-insert p x (y ∷ ys) = elim (Bool-cases (leb (signed x) (signed y))) [
  | inl e ↦ rw e
  | inr e ↦ rw e (omega (arith, count_if-insert p x ys))
]

count_if-sort_unstable :
    (p : ℕ → Bool) (xs : List ℕ) → count_if p (sort_unstable xs) ≡ count_if p xs
unfolding sort_unstable
count_if-sort_unstable p [] = refl
count_if-sort_unstable p (x ∷ xs) =
    omega (arith, count_if-insert p x (sort_unstable xs), count_if-sort_unstable p xs)

leb-true : (a b : ℕ) → a ≤ b → leb a b ≡ true
leb-true a b h = ground arith

get_elem?-All :
    (P : ℕ → Type 0) (i : ℕ) (ys : List ℕ) (v : ℕ) → All P ys → get_elem? ys i ≡ some v → P v
get_elem?-All P i [] v h e = cc e
get_elem?-All P zero (y ∷ ys) v h e = subst P (cc e) h.0
get_elem?-All P (suc i) (y ∷ ys) v h e = get_elem?-All P i ys v h.1 e

-- at the index `i` of a sorted list, `i` numbers before it are at most the one there
count-is_at_most :
    (i : ℕ) (ys : List ℕ) (v : ℕ)
    → IsSorted ys
    → get_elem? ys i ≡ some v
    → i < count_if (is_at_most v) ys
count-is_at_most i [] v h e = cc e
count-is_at_most zero (y ∷ ys) v h e =
    let same : y ≡ v = cc e in
    rw (leb-true (signed y) (signed v) (omega (arith, ap signed same))) (omega arith)
count-is_at_most (suc i) (y ∷ ys) v h e =
    rw (leb-true (signed y) (signed v) (get_elem?-All (λ z. signed y ≤ signed z) i ys v h.0 e))
      (omega (arith, count-is_at_most i ys v h.1 e))

count_every :
    (v : ℕ) (ys : List ℕ)
    → All (λ z. signed v ≤ signed z) ys
    → count_if (is_at_least v) ys ≡ length ys
count_every v [] h = refl
count_every v (y ∷ ys) h =
    rw (leb-true (signed v) (signed y) h.0) (omega (arith, count_every v ys h.1))

-- and the one there with all after it are at least that
count-is_at_least :
    (i : ℕ) (ys : List ℕ) (v : ℕ)
    → IsSorted ys
    → get_elem? ys i ≡ some v
    → length ys ≤ i + count_if (is_at_least v) ys
count-is_at_least i [] v h e = omega arith
count-is_at_least zero (y ∷ ys) v h e =
    let same : y ≡ v = cc e in
    let above = subst (λ x. All (λ z. signed x ≤ signed z) ys) same h.0 in
    rw (leb-true (signed v) (signed y) (omega (arith, ap signed same)))
      (omega (arith, count_every v ys above))
count-is_at_least (suc i) (y ∷ ys) v h e = omega (arith, count-is_at_least i ys v h.1 e)

-- With at least one round, in whatever order of their skews the samples are taken: the measurement
-- returns the samples of the rounds; of `n` samples more than `n / 2` have at most the median skew
-- as i64, and all but at most `n / 2` have at least it; and the median ratio is the ratio of the
-- sample at `n / 2` in the measuring order.
pub measure_skew_median :
    ⦃f : F64⦄ (ss : List Reads)
    → 0 < length ss
    → (r : SkewFigures) × (s : SkewSample) × (measure_skew ss ≡ some r)
      × (r.samples ≡ all_samples ss)
      × (length ss / 2 < count_if (is_at_most r.median_skew_ns) (skews r.samples))
      × (length ss ≤ length ss / 2 + count_if (is_at_least r.median_skew_ns) (skews r.samples))
      × (get_elem? r.samples (length ss / 2) ≡ some s)
      × (r.median_skew_ppm ≡ s.skew_ppm)
unfolding measure_skew result_at
measure_skew_median ss pos =
    let samples = all_samples ss in
    let sorted = sort_unstable (skews samples) in
    let in_order = sort_unstable-IsSorted (skews samples) in
    let size = length-all_samples ss in
    let sorted_size : length sorted ≡ length ss =
      omega (arith, length-sort_unstable (skews samples), length-skews ss) in
    let (median, e) = get_elem?-found (length sorted / 2) sorted (omega arith) in
    let (middle, e2) = get_elem?-found (length samples / 2) samples (omega arith) in
    let below = count-is_at_most (length sorted / 2) sorted median in_order e in
    let above = count-is_at_least (length sorted / 2) sorted median in_order e in
    (
      record {
        samples = samples;
        median_skew_ns = median;
        min_skew_ns = first_or_zero sorted;
        max_skew_ns = last_or 0 sorted;
        median_skew_ppm = middle.skew_ppm;
      },
      middle,
      rw (e, e2),
      refl,
      omega (arith, below, sorted_size, count_if-sort_unstable (is_at_most median) (skews samples)),
      omega
          (arith, above, sorted_size, count_if-sort_unstable (is_at_least median) (skews samples)),
      sym (ap (λ n. get_elem? samples (n / 2)) size) ∙ e2,
      refl,
    )
