-- ===== src/Bench/PerThread/Largest.antt =====
-- src/bench.rs, `measure_per_thread`: the counts of the loop against all pairs of reads.
use native.Mathlib.Decide.{dec_le, dec_lt}
use hotclock.Prelude.{
  ℕ, zero, suc, ◌+◌, ◌-◌, ◌%◌, ◌^◌, ◌≤◌, ◌<◌, ◌≡◌, ◌⊎◌, ◌↔◌, inl, inr, refl, sym, subst, arith,
  some, true, max,
}
use hotclock.Word.{u64_mod}
use hotclock.Bench.PerThread.{Subject, Tally, warmup, after_read, measure_per_thread}
use hotclock.Bench.PerThread.Drops.{
  read_number, read_at, tally, tally-total, is_last-true, is_last-mod, read_loop_ends,
}

-- a drop of `x` nanoseconds from one read of the rounds up to `n` to a later one
abbrev pub IsDrop : Subject → ℕ → ℕ → Type 0
IsDrop s n x = (i : ℕ) × (j : ℕ) × (i < j) × (j ≤ n) × (read_at s i ≡ read_at s j + x)

-- what the variables hold after `n` rounds
pub record Drops (s : Subject) (n : ℕ) (t : Tally) : Type 0 where
  pub highest : (i : ℕ) → i ≤ n → read_at s i ≤ t.previous
  pub reached : (i : ℕ) × (i ≤ n) × (read_at s i ≡ t.previous)
  pub bound : (i j : ℕ) → i ≤ j → j ≤ n → read_at s i ≤ read_at s j + t.max_violation_ns
  pub attained : (t.max_violation_ns ≡ 0) ⊎ IsDrop s n t.max_violation_ns
  pub counted : t.violations ≤ n
  pub none_counted : (t.violations ≡ 0) ↔ (t.max_violation_ns ≡ 0)

after_read-below :
    (current : ℕ) (t : Tally)
    → current < t.previous
    → ((after_read current t).previous ≡ t.previous)
      × ((after_read current t).violations ≡ (t.violations + 1) % u64_mod)
      × ((after_read current t).max_violation_ns ≡ max t.max_violation_ns (t.previous - current))
unfolding after_read
after_read-below current t h = ground arith

after_read-above :
    (current : ℕ) (t : Tally)
    → t.previous ≤ current
    → ((after_read current t).previous ≡ current)
      × ((after_read current t).violations ≡ t.violations)
      × ((after_read current t).max_violation_ns ≡ t.max_violation_ns)
unfolding after_read
after_read-above current t h = ground arith

le_split : (i n : ℕ) → i ≤ suc n → (i ≤ n) ⊎ (i ≡ suc n)
le_split i n h = elim (dec_le i n) [ yes p ↦ inl p | no p ↦ inr (omega arith) ]

later-IsDrop : (s : Subject) (n x : ℕ) → IsDrop s n x → IsDrop s (suc n) x
later-IsDrop s n x (i, j, h, k, e) = (i, j, h, omega arith, e)

start-Drops : (s : Subject) → Drops s 0 (tally s 0)
start-Drops s = record {
  highest = λ i h.
      let e : i ≡ 0 = omega arith in subst (λ k. read_at s k ≤ read_at s 0) (sym e) (omega arith);
  reached = (0, omega arith, refl);
  bound = λ i j h k.
      let e : i ≡ j = omega arith in subst (λ x. read_at s i ≤ read_at s x + 0) e (omega arith);
  attained = inl refl;
  counted = omega arith;
  none_counted = (λ _. refl, λ _. refl);
}

next-highest :
    (s : Subject) (n : ℕ) (t t' : Tally)
    → Drops s n t
    → t.previous ≤ t'.previous
    → read_at s (suc n) ≤ t'.previous
    → (i : ℕ) → i ≤ suc n
    → read_at s i ≤ t'.previous
next-highest s n t t' d up new i h = elim (le_split i n h) [
  | inl q ↦ omega (arith, d.highest i q)
  | inr e ↦ subst (λ k. read_at s k ≤ t'.previous) (sym e) new
]

next-bound :
    (s : Subject) (n : ℕ) (t t' : Tally)
    → Drops s n t
    → ((i : ℕ) → i ≤ suc n → read_at s i ≤ t'.previous)
    → t.max_violation_ns ≤ t'.max_violation_ns
    → t'.previous ≤ read_at s (suc n) + t'.max_violation_ns
    → (i j : ℕ) → i ≤ j
    → j ≤ suc n
    → read_at s i ≤ read_at s j + t'.max_violation_ns
next-bound s n t t' d highest more new i j h k = elim (le_split j n k) [
  | inl q ↦ omega (arith, d.bound i j h q)
  | inr e ↦
      subst (λ x. read_at s i ≤ read_at s x + t'.max_violation_ns) (sym e)
        (omega (arith, highest i (omega arith)))
]

above-Drops :
    (s : Subject) (n : ℕ) (t : Tally)
    → Drops s n t
    → t.previous ≤ read_at s (suc n)
    → Drops s (suc n) (after_read (read_at s (suc n)) t)
above-Drops s n t d h =
    let t' = after_read (read_at s (suc n)) t in
    let (p, v, x) = after_read-above (read_at s (suc n)) t h in
    let highest = next-highest s n t t' d (omega arith) (omega arith) in
    record {
      highest = highest;
      reached = (suc n, omega arith, sym p);
      bound = next-bound s n t t' d highest (omega arith) (omega arith);
      attained = elim d.attained [
        | inl z ↦ inl (omega arith)
        | inr a ↦ inr (subst (IsDrop s (suc n)) (sym x) (later-IsDrop s n t.max_violation_ns a))
      ];
      counted = omega (arith, d.counted);
      none_counted = (λ z. omega (arith, d.none_counted.0), λ z. omega (arith, d.none_counted.1));
    }

-- The larger of an earlier drop and the new one is a drop.
below-attained :
    (s : Subject) (n : ℕ) (t : Tally)
    → Drops s n t
    → read_at s (suc n) < t.previous
    → IsDrop s (suc n) (max t.max_violation_ns (t.previous - read_at s (suc n)))
below-attained s n t d h =
    let current = read_at s (suc n) in
    let (i, hi, e) = d.reached in
    let new : IsDrop s (suc n) (t.previous - current) =
      (i, suc n, omega arith, omega arith, omega arith) in
    elim (dec_le t.max_violation_ns (t.previous - current)) [
      | yes q ↦ subst (IsDrop s (suc n)) (omega arith) new
      | no q ↦ elim d.attained [
        | inl z ↦ absurd (omega arith)
        | inr a ↦ subst (IsDrop s (suc n)) (omega arith) (later-IsDrop s n t.max_violation_ns a)
      ]
    ]

below-Drops :
    (s : Subject) (n : ℕ) (t : Tally)
    → Drops s n t
    → suc n < u64_mod
    → read_at s (suc n) < t.previous
    → Drops s (suc n) (after_read (read_at s (suc n)) t)
below-Drops s n t d fits h =
    let t' = after_read (read_at s (suc n)) t in
    let (p, v, x) = after_read-below (read_at s (suc n)) t h in
    let highest = next-highest s n t t' d (omega arith) (omega arith) in
    let (i, hi, e) = d.reached in
    record {
      highest = highest;
      reached = (i, omega arith, omega arith);
      bound = next-bound s n t t' d highest (omega arith) (omega arith);
      attained = inr (subst (IsDrop s (suc n)) (sym x) (below-attained s n t d h));
      counted = omega (arith, d.counted);
      none_counted = (λ z. absurd (omega (arith, d.counted)), λ z. absurd (omega arith));
    }

tally-Drops : (s : Subject) (n : ℕ) → n < u64_mod → Drops s n (tally s n)
tally-Drops s zero fits = start-Drops s
tally-Drops s (suc n) fits =
    let d = tally-Drops s n (omega arith) in
    elim (dec_lt (read_at s (suc n)) (tally s n).previous) [
      | yes q ↦ below-Drops s n (tally s n) d fits q
      | no q ↦ above-Drops s n (tally s n) d (omega arith)
    ]

-- the counts of a loop of `n` rounds: all its reads, the largest drop, and whether there is one
pub record IsReport (s : Subject) (n : ℕ) (t : Tally) : Type 0 where
  pub total : t.total_reads ≡ n + 1
  pub ascends : (t.violations ≡ 0) ↔ ((i j : ℕ) → i ≤ j → j ≤ n → read_at s i ≤ read_at s j)
  pub bound : (i j : ℕ) → i ≤ j → j ≤ n → read_at s i ≤ read_at s j + t.max_violation_ns
  pub attained : (t.max_violation_ns ≡ 0) ⊎ IsDrop s n t.max_violation_ns

tally-IsReport : (s : Subject) (n : ℕ) → suc n < u64_mod → IsReport s n (tally s n)
tally-IsReport s n fits =
    let t = tally s n in
    let d = tally-Drops s n (omega arith) in
    record {
      total = omega (arith, tally-total s n fits);
      ascends = (
        λ z i j h k. omega (arith, d.bound i j h k, d.none_counted.0 z),
        λ up. elim d.attained [
          | inl z ↦ d.none_counted.1 z
          | inr a ↦
              let (i, j, h, k, e) = a in
              let flat : t.max_violation_ns ≡ 0 = omega (arith, up i j (omega arith) k) in
              d.none_counted.1 flat
        ],
      );
      bound = d.bound;
      attained = d.attained;
    }

pub read_number-eq : (n : ℕ) → read_number n ≡ warmup + n
read_number-eq zero = refl
read_number-eq (suc n) = omega (arith, read_number-eq n)

-- If the time is up after some positive multiple of 2^16 rounds, the loop ends, after a positive
-- multiple of 2^16 rounds that is no larger. Of the reads that these rounds compare, and the one
-- before the loop, it counts a violation exactly if some read is below an earlier one, and
-- `max_violation_ns` is the largest drop from any read to a later one.
pub measure_per_thread_lem :
    (s : Subject) (limit : ℕ)
    → 0 < limit
    → limit % 2 ^ 16 ≡ 0
    → limit ≤ s.rounds
    → limit + 1 < u64_mod
    → s.time_is_up (warmup + limit + 1) ≡ true
    → (n : ℕ) × (t : Tally) × (measure_per_thread s ≡ some t)
      × (0 < n)
      × (n ≤ limit)
      × (n % 2 ^ 16 ≡ 0)
      × IsReport s n t
unfolding measure_per_thread
measure_per_thread_lem s limit pos whole enough fits up =
    let number : warmup + limit + 1 ≡ suc (read_number limit) =
      omega (arith, read_number-eq limit) in
    let up' = subst (λ k. s.time_is_up k ≡ true) number up in
    let (n, e, more, most, last) =
      read_loop_ends s.rounds 0 limit s pos (omega arith) (is_last-true s limit whole up') in
    (n, tally s n, e, more, most, is_last-mod s n last, tally-IsReport s n (omega arith))
