-- ===== src/Word/Fields.antt =====
-- The bitwise or of two numbers whose bits do not overlap is their sum.
use Prim.Native.Nat.{digits, bit_or-bitwise}
use native.Mathlib.Nat.{pow-suc, le_refl}
use hotclock.Prelude.{ℕ, zero, suc, ◌+◌, ◌*◌, ◌/◌, ◌^◌, ◌≤◌, ◌<◌, ◌≡◌, refl, ap, max, bit_or, arith}

-- the library's recursion on the digits of two numbers, for the bitwise or
abbrev or_digits : ℕ → ℕ → ℕ → ℕ
or_digits = digits (λ b. b) max

or_digits-zero : (fuel a : ℕ) → a ≤ fuel → or_digits fuel a 0 ≡ a
or_digits-zero zero a h = omega arith
or_digits-zero (suc n) zero h = refl
or_digits-zero (suc n) (suc a) h = omega (arith, or_digits-zero n (suc a / 2) (omega arith))

-- the high number is a multiple of `2^k`, the low one is below it
or_digits-add :
    (k fuel q high low : ℕ)
    → high ≡ q * 2 ^ k
    → low < 2 ^ k
    → high ≤ fuel
    → or_digits fuel high low ≡ high + low
or_digits-add zero fuel q high zero e lt le = omega (arith, or_digits-zero fuel high le)
or_digits-add zero fuel q high (suc low) e lt le = absurd (omega arith)
or_digits-add (suc k) zero q high low e lt le = omega arith
or_digits-add (suc k) (suc n) q zero low e lt le = omega arith
or_digits-add (suc k) (suc n) q (suc high) low e lt le =
    let twice : suc high ≡ 2 * (q * 2 ^ k) = omega (arith, ap (λ (p : ℕ). q * p) (pow-suc 2 k)) in
    let rest : or_digits n (suc high / 2) (low / 2) ≡ suc high / 2 + low / 2 =
      or_digits-add k n q (suc high / 2) (low / 2) (omega arith) (omega (arith, pow-suc 2 k))
        (omega arith) in
    omega arith

pub bit_or-add : (k q low : ℕ) → low < 2 ^ k → bit_or (q * 2 ^ k) low ≡ q * 2 ^ k + low
bit_or-add k q low lt =
    simp bit_or-bitwise (or_digits-add k (q * 2 ^ k) q (q * 2 ^ k) low refl lt (le_refl _))
