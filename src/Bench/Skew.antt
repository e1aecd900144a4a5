-- ===== src/Bench/Skew.antt =====
-- src/bench.rs, `measure_skew`: how far a clock is off against the reference clock over an
-- interval. An i64 is the u64 of the same bits, and so is an f64, whose arithmetic is a parameter.
pub mod Order
pub mod Ratios
use hotclock.Prelude.{
  ℕ, ◌+◌, ◌-◌, ◌/◌, ◌%◌, ◌^◌, Option, none, some, List, [], ◌∷◌, ltb, leb, if◌then◌else◌, length,
  get_elem?,
}
use hotclock.Word.Floats.{F64, zero_f64, million_f64}
use hotclock.Word.{u64_mod, wrapping_sub}

-- the four reads of one round, in the order in which they are made
pub record Reads : Type 0 where
  pub r_start : ℕ
  pub c_start : ℕ
  pub c_end : ℕ
  pub r_end : ℕ

pub record SkewSample : Type 0 where
  pub c_elapsed_ns : ℕ
  pub ref_elapsed_ns : ℕ
  pub skew_ns : ℕ
  pub skew_ppm : ℕ

-- `saturating_sub` on u64, then the difference as i64
unfoldable pub sample : ⦃f : F64⦄ → Reads → SkewSample
sample ⦃f⦄ s =
    let c = s.c_end - s.c_start in
    let r = s.r_end - s.r_start in
    record {
      c_elapsed_ns = c;
      ref_elapsed_ns = r;
      skew_ns = wrapping_sub c r;
      skew_ppm =
          if ltb 0 r
          then f.div (f.mul (f.of_i64 (wrapping_sub c r)) million_f64) (f.of_u64 r)
          else zero_f64;
    }

-- the order of i64 is that of the numbers moved up by 2^63
abbrev pub signed : ℕ → ℕ
signed bits = (bits + 2 ^ 63) % u64_mod

-- `sort_unstable` on i64: equal numbers cannot be told apart, so every sort gives this list
unfoldable pub insert : ℕ → List ℕ → List ℕ
insert x [] = x ∷ []
insert x (y ∷ ys) =
    let rest = insert x ys in if leb (signed x) (signed y) then x ∷ y ∷ ys else y ∷ rest

unfoldable pub sort_unstable : List ℕ → List ℕ
unfolding insert
sort_unstable [] = []
sort_unstable (x ∷ xs) = insert x (sort_unstable xs)

-- `first().unwrap_or(&0)` and `last().unwrap_or(&0)`
abbrev pub first_or_zero : List ℕ → ℕ
first_or_zero [] = 0
first_or_zero (x ∷ xs) = x

abbrev pub last_or : ℕ → List ℕ → ℕ
last_or d [] = d
last_or d (x ∷ xs) = last_or x xs

-- the numbers of the result
pub record SkewFigures : Type 0 where
  pub samples : List SkewSample
  pub median_skew_ns : ℕ
  pub min_skew_ns : ℕ
  pub max_skew_ns : ℕ
  pub median_skew_ppm : ℕ

unfoldable pub all_samples : ⦃f : F64⦄ → List Reads → List SkewSample
all_samples [] = []
all_samples (s ∷ ss) = sample s ∷ all_samples ss

unfoldable pub skews : List SkewSample → List ℕ
skews [] = []
skews (s ∷ ss) = s.skew_ns ∷ skews ss

-- the result at a median and at the sample for its ratio; either index is out of range where there
-- is no sample, which panics
unfoldable pub result_at :
    List SkewSample → List ℕ → Option ℕ → Option SkewSample → Option SkewFigures
result_at samples sorted none _ = none
result_at samples sorted (some median) none = none
result_at samples sorted (some median) (some median_sample) = some (record {
  samples = samples;
  median_skew_ns = median;
  min_skew_ns = first_or_zero sorted;
  max_skew_ns = last_or 0 sorted;
  median_skew_ppm = median_sample.skew_ppm;
})

-- `none` is the panic
unfoldable pub measure_skew : ⦃f : F64⦄ → List Reads → Option SkewFigures
unfolding result_at
measure_skew rounds =
    let samples = all_samples rounds in
    let sorted = sort_unstable (skews samples) in
    result_at samples sorted (get_elem? sorted (length sorted / 2))
      (get_elem? samples (length samples / 2))
