-- ===== src/Bench/PerThread.antt =====
-- src/bench.rs, `measure_per_thread`: one thread that reads a clock in a tight loop.
--
-- The clock under test is a function from the number of a read to what `now_as_u64` returns, and
-- `start.elapsed() >= duration` is a function of the number of reads made before it.
pub mod Drops
pub mod Largest
use hotclock.Prelude.{
  ℕ, zero, suc, ◌+◌, ◌-◌, ◌%◌, ◌^◌, Bool, Option, none, some, ltb, ◌==◌, ◌&&◌, if◌then◌else◌,
}
use hotclock.Word.{u32_mod, u64_mod}

-- the clock, its budget, and the rounds that the loop is followed for
pub record Subject : Type 0 where
  pub now_as_u64 : ℕ → ℕ
  pub time_is_up : ℕ → Bool
  pub rounds : ℕ

-- the local variables of the loop
pub record Tally : Type 0 where
  pub previous : ℕ
  pub violations : ℕ
  pub max_violation_ns : ℕ
  pub total_reads : ℕ
  pub budget_check : ℕ

-- the reads of the warm-up
abbrev pub warmup : ℕ
warmup = 1_000

abbrev pub start : Subject → Tally
start s = record {
  previous = s.now_as_u64 warmup;
  violations = 0;
  max_violation_ns = 0;
  total_reads = 1;
  budget_check = 0;
}

-- a read below the previous one is a violation; any other read becomes the previous one
unfoldable pub compared : ℕ → Tally → Tally
compared current t =
    if ltb current t.previous
    then record t {
      violations = (t.violations + 1) % u64_mod;
      max_violation_ns =
          let diff = t.previous - current in
          if ltb t.max_violation_ns diff then diff else t.max_violation_ns;
    }
    else record t { previous = current }

-- the body of the loop up to the budget check
unfoldable pub after_read : ℕ → Tally → Tally
unfolding compared
after_read current t =
    record (compared current (record t { total_reads = (t.total_reads + 1) % u64_mod })) {
      budget_check = (t.budget_check + 1) % u32_mod;
    }

-- the loop, from the read of number `k`; `& 0xFFFF` keeps the 16 low bits
unfoldable pub read_loop : ℕ → Subject → ℕ → Tally → Option Tally
read_loop zero s k t = none
read_loop (suc rounds) s k t =
    let t' = after_read (s.now_as_u64 k) t in
    let rest = read_loop rounds s (suc k) t' in
    if (t'.budget_check % 2 ^ 16 == 0) && s.time_is_up (suc k) then some t' else rest

-- the counts of the result; `none` is a loop that is still running after its rounds
unfoldable pub measure_per_thread : Subject → Option Tally
unfolding read_loop
measure_per_thread s = read_loop s.rounds s (suc warmup) (start s)
