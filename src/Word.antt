-- ===== src/Word.antt =====
-- The fixed-width integer operations of Rust that the crate calls: u64 and u128 values are native
-- numbers, and each operation says what happens at the end of the range.
pub mod Fields
pub mod Floats
use hotclock.Prelude.{
  ℕ, ◌+◌, ◌-◌, ◌*◌, ◌/◌, ◌%◌, ◌^◌, ◌≤◌, ◌<◌, Option, none, some, ltb, ◌==◌, if◌then◌else◌,
}

abbrev pub u32_mod : ℕ
u32_mod = 2 ^ 32

abbrev pub u64_mod : ℕ
u64_mod = 2 ^ 64

abbrev pub u128_mod : ℕ
u128_mod = 2 ^ 128

-- `u64::MAX`
abbrev pub u64_max : ℕ
u64_max = 2 ^ 64 - 1

abbrev pub wrapping_sub : ℕ → ℕ → ℕ
wrapping_sub a b = (a + u64_mod - b) % u64_mod

abbrev pub checked_sub : ℕ → ℕ → Option ℕ
checked_sub a b = if ltb a b then none else some (a - b)

abbrev pub checked_add : ℕ → ℕ → Option ℕ
checked_add a b = if ltb (a + b) u64_mod then some (a + b) else none

-- `u64::try_from` of a u128
abbrev pub u64_try_from : ℕ → Option ℕ
u64_try_from n = if ltb n u64_mod then some n else none

-- `u64::try_from(n).unwrap_or(u64::MAX)`
abbrev pub u64_saturate : ℕ → ℕ
u64_saturate n = if ltb n u64_mod then n else u64_max

-- The product of two u128 values, which the hardware keeps modulo 2 ^ 128.
abbrev pub mul_u128 : ℕ → ℕ → ℕ
mul_u128 a b = a * b % u128_mod

-- `u128::checked_shl` refuses a shift by the width or more; the bits that leave the word are lost.
abbrev pub checked_shl : ℕ → ℕ → Option ℕ
checked_shl n k = if ltb k 128 then some (n * 2 ^ k % u128_mod) else none

abbrev pub checked_div : ℕ → ℕ → Option ℕ
checked_div a b = if b == 0 then none else some (a / b)
