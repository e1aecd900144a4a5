-- ===== src/Word/Floats.antt =====
-- The arithmetic on f64 that src/arch/wasm.rs and src/bench.rs use. An f64 is its 64 bits, and the
-- instructions of the processor on them are a parameter.
use hotclock.Prelude.{ℕ}

-- two conversions to f64, `as u64`, a product and a quotient
pub record F64 : Type 0 where
  pub of_i64 : ℕ → ℕ
  pub of_u64 : ℕ → ℕ
  pub to_u64 : ℕ → ℕ
  pub mul : ℕ → ℕ → ℕ
  pub div : ℕ → ℕ → ℕ

-- the bits of 0.0 and of 1_000_000.0
abbrev pub zero_f64 : ℕ
zero_f64 = 0

abbrev pub million_f64 : ℕ
million_f64 = 4_696_837_146_684_686_336
