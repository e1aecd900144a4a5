-- ===== src/Bench/Skew/Order.antt =====
-- src/bench.rs, `measure_skew`: the order of the least, the median and the largest skew.
use hotclock.Prelude.{
  ℕ, zero, suc, ◌/◌, ◌≤◌, ◌<◌, ◌≡◌, refl, ap, arith, none, some, List, [], ◌∷◌, leb, length,
  get_elem?, All, Bool-cases, inl, inr, Option, sym, ◌∙◌,
}
use hotclock.Bench.Skew.{
  Reads, SkewSample, signed, insert, sort_unstable, first_or_zero, last_or, SkewFigures,
  all_samples, skews, result_at, measure_skew,
}
use hotclock.Word.Floats.{F64}

abbrev pub IsSorted : List ℕ → Type 0
IsSorted [] = Unit {0}
IsSorted (y ∷ ys) = All (λ z. signed y ≤ signed z) ys × IsSorted ys

insert-All : (P : ℕ → Type 0) (x : ℕ) (ys : List ℕ) → P x → All P ys → All P (insert x ys)
unfolding insert
insert-All P x [] p h = (p, tt)
insert-All P x (y ∷ ys) p h = elim (Bool-cases (leb (signed x) (signed y))) [
  | inl e ↦ rw e (p, h)
  | inr e ↦ rw e (h.0, insert-All P x ys p h.1)
]

insert-All_from : (P : ℕ → Type 0) (x : ℕ) (ys : List ℕ) → All P (insert x ys) → P x × All P ys
unfolding insert
insert-All_from P x [] = λ h. (h.0, tt)
insert-All_from P x (y ∷ ys) = elim (Bool-cases (leb (signed x) (signed y))) [
  | inl e ↦ rw e (λ h. h)
  | inr e ↦ rw e (λ h. let (p, rest) = insert-All_from P x ys h.1 in (p, (h.0, rest)))
]

above-All :
    (x y : ℕ) (ys : List ℕ)
    → signed x ≤ signed y
    → All (λ z. signed y ≤ signed z) ys
    → All (λ z. signed x ≤ signed z) ys
above-All x y [] h all = tt
above-All x y (z ∷ zs) h all = (omega (arith, all.0), above-All x y zs h all.1)

insert-IsSorted : (x : ℕ) (ys : List ℕ) → IsSorted ys → IsSorted (insert x ys)
unfolding insert
insert-IsSorted x [] h = (tt, tt)
insert-IsSorted x (y ∷ ys) h = elim (Bool-cases (leb (signed x) (signed y))) [
  | inl e ↦ let le : signed x ≤ signed y = ground arith in rw e ((le, above-All x y ys le h.0), h)
  | inr e ↦
      let ge : signed y ≤ signed x = ground arith in
      rw e (insert-All (λ z. signed y ≤ signed z) x ys ge h.0, insert-IsSorted x ys h.1)
]

pub sort_unstable-IsSorted : (xs : List ℕ) → IsSorted (sort_unstable xs)
unfolding sort_unstable
sort_unstable-IsSorted [] = tt
sort_unstable-IsSorted (x ∷ xs) = insert-IsSorted x (sort_unstable xs) (sort_unstable-IsSorted xs)

sort_unstable-All_from : (P : ℕ → Type 0) (xs : List ℕ) → All P (sort_unstable xs) → All P xs
unfolding sort_unstable
sort_unstable-All_from P [] h = tt
sort_unstable-All_from P (x ∷ xs) h =
    let (p, rest) = insert-All_from P x (sort_unstable xs) h in
    (p, sort_unstable-All_from P xs rest)

length-insert : (x : ℕ) (ys : List ℕ) → length (insert x ys) ≡ suc (length ys)
unfolding insert
length-insert x [] = refl
length-insert x (y ∷ ys) = elim (Bool-cases (leb (signed x) (signed y))) [
  | inl e ↦ rw e
  | inr e ↦ rw e (ap suc (length-insert x ys))
]

pub length-sort_unstable : (xs : List ℕ) → length (sort_unstable xs) ≡ length xs
unfolding sort_unstable
length-sort_unstable [] = refl
length-sort_unstable (x ∷ xs) =
    omega (arith, length-insert x (sort_unstable xs), length-sort_unstable xs)

pub length-skews : ⦃f : F64⦄ (ss : List Reads) → length (skews (all_samples ss)) ≡ length ss
unfolding skews all_samples
length-skews [] = refl
length-skews (s ∷ ss) = ap suc (length-skews ss)

pub length-all_samples : ⦃f : F64⦄ (ss : List Reads) → length (all_samples ss) ≡ length ss
unfolding all_samples
length-all_samples [] = refl
length-all_samples (s ∷ ss) = ap suc (length-all_samples ss)

pub get_elem?-found {ℓ} :
    {A : Type ℓ} (i : ℕ) (ys : List A) → i < length ys → (v : A) × (get_elem? ys i ≡ some v)
get_elem?-found i [] h = absurd (omega arith)
get_elem?-found zero (y ∷ ys) h = (y, refl)
get_elem?-found (suc i) (y ∷ ys) h = get_elem?-found i ys (omega arith)

-- An index below the length finds a number, and one with every property that all have.
get_elem?-some :
    (P : ℕ → Type 0) (i : ℕ) (ys : List ℕ)
    → i < length ys
    → All P ys
    → (v : ℕ) × (get_elem? ys i ≡ some v) × P v
get_elem?-some P i [] h all = absurd (omega arith)
get_elem?-some P zero (y ∷ ys) h all = (y, refl, all.0)
get_elem?-some P (suc i) (y ∷ ys) h all = get_elem?-some P i ys (omega arith) all.1

get_elem?-eq_none : (ys : List ℕ) (i : ℕ) → length ys ≤ i → get_elem? ys i ≡ none
get_elem?-eq_none [] i h = refl
get_elem?-eq_none (y ∷ ys) zero h = absurd (omega arith)
get_elem?-eq_none (y ∷ ys) (suc i) h = get_elem?-eq_none ys i (omega arith)

below_last :
    (y : ℕ) (ys : List ℕ) → IsSorted (y ∷ ys) → All (λ z. signed z ≤ signed (last_or y ys)) (y ∷ ys)
below_last y [] h = (omega arith, tt)
below_last y (z ∷ zs) h = let rest = below_last z zs h.1 in (omega (arith, h.0.0, rest.0), rest)

-- within the first and the last of a list
abbrev pub IsWithin : List ℕ → ℕ → Type 0
IsWithin ys x = (signed (first_or_zero ys) ≤ signed x) × (signed x ≤ signed (last_or 0 ys))

All-both : (P Q : ℕ → Type 0) (ys : List ℕ) → All P ys → All Q ys → All (λ z. P z × Q z) ys
All-both P Q [] p q = tt
All-both P Q (y ∷ ys) p q = ((p.0, q.0), All-both P Q ys p.1 q.1)

IsSorted-IsWithin : (ys : List ℕ) → IsSorted ys → All (IsWithin ys) ys
IsSorted-IsWithin [] h = tt
IsSorted-IsWithin (y ∷ ys) h =
    All-both (λ z. signed y ≤ signed z) (λ z. signed z ≤ signed (last_or y ys)) (y ∷ ys)
      (omega arith, h.0) (below_last y ys h)

-- With at least one round the measurement returns, and in the order of i64 the median and every
-- sample's skew lie from the least to the largest; with no round it panics.
pub measure_skew_lem :
    ⦃f : F64⦄ (ss : List Reads)
    → (length ss ≡ 0 → measure_skew ss ≡ none)
      × (0 < length ss
          → (r : SkewFigures) × (measure_skew ss ≡ some r)
            × (signed r.min_skew_ns ≤ signed r.median_skew_ns)
            × (signed r.median_skew_ns ≤ signed r.max_skew_ns)
            × All
                (λ z. (signed r.min_skew_ns ≤ signed z) × (signed z ≤ signed r.max_skew_ns))
                (skews r.samples))
unfolding measure_skew result_at
measure_skew_lem ss =
    let samples = all_samples ss in
    let sorted = sort_unstable (skews samples) in
    let size : length sorted ≡ length ss =
      omega (arith, length-sort_unstable (skews samples), length-skews ss) in
    let within = IsSorted-IsWithin sorted (sort_unstable-IsSorted (skews samples)) in
    (
      λ none_made. rw (get_elem?-eq_none sorted (length sorted / 2) (omega arith)),
      λ some_made.
          let (median, e, (low, high)) =
            get_elem?-some (IsWithin sorted) (length sorted / 2) sorted (omega arith) within in
          let (middle, e2) =
            get_elem?-found (length samples / 2) samples (omega (arith, length-all_samples ss)) in
          (
            record {
              samples = samples;
              median_skew_ns = median;
              min_skew_ns = first_or_zero sorted;
              max_skew_ns = last_or 0 sorted;
              median_skew_ppm = middle.skew_ppm;
            },
            rw (e, e2),
            low,
            high,
            sort_unstable-All_from (IsWithin sorted) (skews samples) within,
          ),
    )

abbrev samples_of : Option SkewFigures → List SkewSample
samples_of none = []
samples_of (some r) = r.samples

result_at-samples :
    (samples : List SkewSample) (sorted : List ℕ) (m : Option ℕ) (o : Option SkewSample)
    (r : SkewFigures)
    → result_at samples sorted m o ≡ some r
    → r.samples ≡ samples
unfolding result_at
result_at-samples samples sorted none o r e = cc e
result_at-samples samples sorted (some median) none r e = cc e
result_at-samples samples sorted (some median) (some s) r e = sym (ap samples_of e)

-- a measurement that returns has one sample for each round
pub measure_skew-samples :
    ⦃f : F64⦄ (ss : List Reads) (r : SkewFigures)
    → measure_skew ss ≡ some r
    → length r.samples ≡ length ss
unfolding measure_skew result_at
measure_skew-samples ss r e =
    let samples = all_samples ss in
    let sorted = sort_unstable (skews samples) in
    let median = get_elem? sorted (length sorted / 2) in
    let middle = get_elem? samples (length samples / 2) in
    ap length (result_at-samples samples sorted median middle r e) ∙ length-all_samples ss
