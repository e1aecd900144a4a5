-- ===== src/Bench/PerThread/Drops.antt =====
-- src/bench.rs, `measure_per_thread`: when the loop ends, and what its counts say of the reads.
use hotclock.Prelude.{
  ℕ, zero, suc, ◌+◌, ◌%◌, ◌^◌, ◌≤◌, ◌<◌, ◌≡◌, ◌≢◌, inl, inr, refl, arith, Bool, true, some, ◌==◌,
  ◌&&◌, if◌then◌else◌, Bool-cases,
}
use hotclock.Word.{u32_mod, u64_mod}
use hotclock.Bench.PerThread.{Subject, Tally, warmup, start, after_read, read_loop}

-- the number of the read that round `n` compares; round 0 is the read before the loop
abbrev pub read_number : ℕ → ℕ
read_number zero = warmup
read_number (suc n) = suc (read_number n)

abbrev pub read_at : Subject → ℕ → ℕ
read_at s n = s.now_as_u64 (read_number n)

-- the variables after `n` rounds
abbrev pub tally : Subject → ℕ → Tally
tally s zero = start s
tally s (suc n) = after_read (read_at s (suc n)) (tally s n)

tally-budget : (s : Subject) (n : ℕ) → (tally s n).budget_check ≡ n % u32_mod
unfolding after_read
tally-budget s zero = refl
tally-budget s (suc n) = ground (arith, tally-budget s n)

pub tally-total : (s : Subject) (n : ℕ) → suc n < u64_mod → (tally s n).total_reads ≡ suc n
unfolding after_read
tally-total s zero h = refl
tally-total s (suc n) h = ground (arith, tally-total s n)

-- the condition under which the round of number `n` is the last
abbrev pub is_last : Subject → ℕ → Bool
is_last s n = ((tally s n).budget_check % 2 ^ 16 == 0) && s.time_is_up (suc (read_number n))

read_loop-suc :
    (rounds n : ℕ) (s : Subject)
    → read_loop (suc rounds) s (suc (read_number n)) (tally s n) ≡ (
        if is_last s (suc n)
        then some (tally s (suc n))
        else read_loop rounds s (suc (read_number (suc n))) (tally s (suc n)))
unfolding read_loop
read_loop-suc rounds n s = refl

-- A round of a number that is a multiple of 2^16 is the last, if the time is up.
pub is_last-true :
    (s : Subject) (n : ℕ)
    → n % 2 ^ 16 ≡ 0
    → s.time_is_up (suc (read_number n)) ≡ true
    → is_last s n ≡ true
is_last-true s n h up = ground (arith, tally-budget s n)

pub is_last-mod : (s : Subject) (n : ℕ) → is_last s n ≡ true → n % 2 ^ 16 ≡ 0
is_last-mod s n h = ground (arith, tally-budget s n)

-- The loop ends, at a multiple of 2^16 rounds, and at one where the time is up at the latest.
pub read_loop_ends :
    (rounds n limit : ℕ) (s : Subject)
    → n < limit
    → limit ≤ n + rounds
    → is_last s limit ≡ true
    → (n' : ℕ) × (read_loop rounds s (suc (read_number n)) (tally s n) ≡ some (tally s n'))
      × (n < n')
      × (n' ≤ limit)
      × (is_last s n' ≡ true)
read_loop_ends zero n limit s h1 h2 up = absurd (omega arith)
read_loop_ends (suc rounds) n limit s h1 h2 up = elim (Bool-cases (is_last s (suc n))) [
  | inl e ↦ (suc n, rw (read_loop-suc rounds n s, e), omega arith, omega arith, e)
  | inr e ↦
      let before : suc n ≢ limit = λ p. cc in
      let (n', r, more, most, last) =
        read_loop_ends rounds (suc n) limit s (omega arith) (omega arith) up in
      (n', rw (read_loop-suc rounds n s, e, r), omega arith, most, last)
]
