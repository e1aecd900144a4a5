-- ===== src/Skew/Clocks.antt =====
-- benches/skew.rs: which clocks are measured, by what, and the report of each. The measurements
-- themselves are those of src/bench.rs, as an interface.
pub mod Names
pub mod Report
pub mod Recorded
use Prim.Native.String.{String, compare}
use text.Mathlib.Text.{◌==◌, is_lt}
use hotclock.Prelude.{
  ℕ, ◌≡◌, ◌↔◌, ◌&&◌, Bool, true, false, Option, none, some, List, [], ◌∷◌, ◌++◌, if◌then◌else◌,
}
use hotclock.Duration.{Duration, from_secs}
use hotclock.Skew.Args.{Mode, fast, drift, all, Args}
use hotclock.Word.Floats.{zero_f64}
use hotclock.Bench.Results.{PerThreadResult, CrossThreadResult, SkewResult}

-- the clock sources, by the name of their type
pub data Clock : Type 0 where
  tach_instant tach_ordered_instant tach_instant_recal : Clock
  std_instant quanta_instant minstant_instant fastant_instant : Clock

-- `NAME`
abbrev pub name_of : Clock → String
name_of tach_instant = "tach"
name_of tach_ordered_instant = "tach_ordered"
name_of tach_instant_recal = "tach_recal"
name_of std_instant = "std"
name_of quanta_instant = "quanta"
name_of minstant_instant = "minstant"
name_of fastant_instant = "fastant"

-- the names under the Cargo feature `recalibrate-background` or without it
with_recal : Bool → List String → List String
with_recal true rest = "tach_recal" ∷ rest
with_recal false rest = rest

unfoldable pub all_clocks : Bool → List String
unfolding with_recal
all_clocks recal =
    "tach" ∷ "tach_ordered" ∷ with_recal recal ("std" ∷ "quanta" ∷ "minstant" ∷ "fastant" ∷ [])

pub record ClockReport : Type 0 where
  pub backed_by_arch_counter : Bool
  pub per_thread : PerThreadResult
  pub cross_thread : CrossThreadResult
  pub skew_1s : SkewResult
  pub skew_1m : Option SkewResult

-- What the program calls of src/bench.rs; `none` is a panic, which comes exactly where no sample is
-- asked for. Each result names its clock, and a skew the label of its interval.
pub record Bench : Type 0 where
  pub backed_by_arch_counter : Clock → Bool
  pub measure_per_thread : Clock → Duration → PerThreadResult
  pub measure_cross_thread : Clock → ℕ → Duration → CrossThreadResult
  pub measure_skew : Clock → Duration → ℕ → String → Option SkewResult
  pub panics_iff :
      (c : Clock) (interval : Duration) (n : ℕ) (label : String)
      → (measure_skew c interval n label ≡ none) ↔ (n ≡ 0)
  pub per_thread_named : (c : Clock) (d : Duration) → (measure_per_thread c d).clock ≡ name_of c
  pub cross_thread_named :
      (c : Clock) (threads : ℕ) (d : Duration)
      → (measure_cross_thread c threads d).clock ≡ name_of c
  pub skew_named :
      (c : Clock) (interval : Duration) (n : ℕ) (label : String) (r : SkewResult)
      → measure_skew c interval n label ≡ some r
      → (r.clock ≡ name_of c) × (r.interval ≡ label)

abbrev pub empty_per_thread : Clock → PerThreadResult
empty_per_thread c = record {
  clock = name_of c;
  violations = 0;
  total_reads = 0;
  max_violation_ns = 0;
  duration_ns = 0;
}

abbrev pub empty_cross_thread : Clock → CrossThreadResult
empty_cross_thread c = record {
  clock = name_of c;
  threads = 0;
  violations_per_thread = [];
  total_violations = 0;
  total_reads = 0;
  max_violation_ns = 0;
  preemption_dropped = 0;
  duration_ns = 0;
  violation_histogram_ns = [];
}

abbrev pub empty_skew_1s : Clock → SkewResult
empty_skew_1s c = record {
  clock = name_of c;
  interval = "1s";
  samples = [];
  median_skew_ns = 0;
  min_skew_ns = 0;
  max_skew_ns = 0;
  median_skew_ppm = zero_f64;
}

infixl 5 ◌>>=◌
abbrev pub ◌>>=◌ {ℓ κ} : {A : Type ℓ} {B : Type κ} → Option A → (A → Option B) → Option B
none >>= f = none
some a >>= f = f a

-- the short measurements, under the modes fast and all
unfoldable pub short_part :
    Bench → Clock → Args → Mode → Option (PerThreadResult × CrossThreadResult × SkewResult)
short_part b c args drift = some (empty_per_thread c, empty_cross_thread c, empty_skew_1s c)
short_part b c args m = do
  let pt = b.measure_per_thread c args.duration
  let ct = b.measure_cross_thread c args.threads args.duration
  s1 ← b.measure_skew c (from_secs 1) args.skew_1s_samples "1s"
  some (pt, ct, s1)

-- the long one, under the modes drift and all
unfoldable pub long_part : Bench → Clock → Args → Mode → Option (Option SkewResult)
long_part b c args fast = some none
long_part b c args m = do
  s60 ← b.measure_skew c (from_secs 60) args.skew_1m_samples "1m"
  some (some s60)

unfoldable pub run_for : Bench → Clock → Args → Option ClockReport
unfolding short_part long_part
run_for b c args = do
  short ← short_part b c args args.mode
  long ← long_part b c args args.mode
  some (record {
    backed_by_arch_counter = b.backed_by_arch_counter c;
    per_thread = short.0;
    cross_thread = short.1;
    skew_1s = short.2;
    skew_1m = long;
  })

-- `match name`; the arm of `tach_recal` is compiled under the feature only
unfoldable pub clock_of : Bool → String → Option Clock
clock_of recal name =
    if name == "tach"
    then some tach_instant
    else if name == "tach_ordered"
    then some tach_ordered_instant
    else if recal && name == "tach_recal"
    then some tach_instant_recal
    else if name == "std"
    then some std_instant
    else if name == "quanta"
    then some quanta_instant
    else if name == "minstant"
    then some minstant_instant
    else if name == "fastant"
    then some fastant_instant
    else none

unfoldable pub run_clock : Bench → Bool → String → Args → Option ClockReport
unfolding clock_of
run_clock b recal name args = do c ← clock_of recal name; run_for b c args

-- `BTreeMap::insert`: the entries are kept in the order of the keys, that of their bytes, which for
-- UTF-8 is that of the characters
unfoldable pub insert :
    String → ClockReport → List (String × ClockReport) → List (String × ClockReport)
insert name r [] = (name, r) ∷ []
insert name r ((key, old) ∷ rest) =
    let others = insert name r rest in
    if name == key
    then (key, r) ∷ rest
    else if is_lt (compare name key)
    then (name, r) ∷ (key, old) ∷ rest
    else (key, old) ∷ others

-- whether `--only-clock` lets a name through
unfoldable pub is_selected : Option String → String → Bool
is_selected none name = true
is_selected (some only) name = only == name

-- the loop of `main` over the names; `none` is a panic in one of them
unfoldable pub report :
    Bench
    → Bool
    → Args
    → List String
    → List (String × ClockReport)
    → Option (List (String × ClockReport))
unfolding run_clock
report b recal args [] clocks = some clocks
report b recal args (name ∷ names) clocks = elim (is_selected args.only_clock name) [
  | false ↦ report b recal args names clocks
  | true ↦ run_clock b recal name args >>= λ r. report b recal args names (insert name r clocks)
]
