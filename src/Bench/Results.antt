-- ===== src/Bench/Results.antt =====
-- src/bench.rs: what the three measurements return, with the name of the clock and the times.
use Prim.Native.String.{String}
use hotclock.Prelude.{ℕ, ◌-◌, Option, none, some, List, [], ◌∷◌, ltb, if◌then◌else◌}
use hotclock.Word.{u32_mod, u64_saturate}
use hotclock.Bench.PerThread.{Tally}
use hotclock.Bench.CrossThread.{JoinedCounts, hist_buckets_ns}
use hotclock.Bench.Skew.{SkewSample, SkewFigures}

pub record PerThreadResult : Type 0 where
  pub clock : String
  pub violations : ℕ
  pub total_reads : ℕ
  pub max_violation_ns : ℕ
  pub duration_ns : ℕ

-- after the loop, `nanos` after its start
abbrev pub per_thread_result : String → ℕ → Tally → PerThreadResult
per_thread_result name nanos t = record {
  clock = name;
  violations = t.violations;
  total_reads = t.total_reads;
  max_violation_ns = t.max_violation_ns;
  duration_ns = u64_saturate nanos;
}

pub record CrossThreadResult : Type 0 where
  pub clock : String
  pub threads : ℕ
  pub violations_per_thread : List ℕ
  pub total_violations : ℕ
  pub total_reads : ℕ
  pub max_violation_ns : ℕ
  pub preemption_dropped : ℕ
  pub duration_ns : ℕ
  pub violation_histogram_ns : List (ℕ × ℕ)

-- `zip`
abbrev pub zip {ℓ κ} : {A : Type ℓ} {B : Type κ} → List A → List B → List (A × B)
zip [] ys = []
zip (x ∷ xs) [] = []
zip (x ∷ xs) (y ∷ ys) = (x, y) ∷ zip xs ys

-- `u32::try_from(threads).unwrap_or(u32::MAX)`
abbrev pub u32_saturate : ℕ → ℕ
u32_saturate n = if ltb n u32_mod then n else u32_mod - 1

-- after the last join, `nanos` after the start
abbrev pub cross_thread_result : String → ℕ → ℕ → JoinedCounts → CrossThreadResult
cross_thread_result name threads nanos j = record {
  clock = name;
  threads = u32_saturate threads;
  violations_per_thread = j.violations_per_thread;
  total_violations = j.total_violations;
  total_reads = j.total_reads;
  max_violation_ns = j.max_violation_ns;
  preemption_dropped = j.preemption_dropped;
  duration_ns = u64_saturate nanos;
  violation_histogram_ns = zip hist_buckets_ns j.violation_histogram;
}

pub record SkewResult : Type 0 where
  pub clock : String
  pub interval : String
  pub samples : List SkewSample
  pub median_skew_ns : ℕ
  pub min_skew_ns : ℕ
  pub max_skew_ns : ℕ
  pub median_skew_ppm : ℕ

-- the result under the name of the clock and the label of the interval, if it does not panic
abbrev pub skew_result : String → String → Option SkewFigures → Option SkewResult
skew_result name label none = none
skew_result name label (some f) = some (record {
  clock = name;
  interval = label;
  samples = f.samples;
  median_skew_ns = f.median_skew_ns;
  min_skew_ns = f.min_skew_ns;
  max_skew_ns = f.max_skew_ns;
  median_skew_ppm = f.median_skew_ppm;
})
