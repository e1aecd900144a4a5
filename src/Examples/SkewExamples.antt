-- ===== src/Examples/SkewExamples.antt =====
-- benches/skew.rs at concrete arguments: `--mode drift --threads 8 --warm-up 3 x`, then a bad
-- mode; and a report of all the clocks without the background thread.
use Prim.Native.String.{String}
use hotclock.Prelude.{
  ℕ, ◌+◌, none, zero, suc, ap, length, arith, ◌≡◌, refl, true, some, List, [], ◌∷◌, ◌++◌, All,
}
use hotclock.Skew.Args.{
  drift, fast, parsed, panicked, unknown_mode, integer_of, parse_args, default_args,
}
use hotclock.Skew.Args.Spelled.{
  Setting, set_mode, set_threads, set_only_clock, set_output, unknown, word, bad_mode, IsSpelling,
  spelled_all, effect_all, parse_args-spelled,
}
use hotclock.Bench.Skew.{Reads}
use hotclock.Skew.Clocks.Recorded.{Log}
use hotclock.Target.{linux}
use hotclock.Skew.Commands.{HostTexts, read_cpu_model}
use hotclock.Skew.Commands.Model.{read_cpu_model-linux}
use hotclock.Skew.Program.{Surroundings}
use hotclock.Examples.Hosts.{whole_numbers}

abbrev settings : List Setting
settings = set_mode drift ∷ set_threads "8" 8 ∷ unknown "--warm-up" "3" ∷ word "x" ∷ []

settings-IsSpelling : All IsSpelling settings
unfolding integer_of
settings-IsSpelling = ground arith

parse_args-spelled_example :
    (parse_args (some 32) (spelled_all settings)
      ≡ parsed (effect_all settings (default_args (some 32))))
    × (parse_args (some 32) (spelled_all settings ++ ("--mode" ∷ "slow" ∷ [] ++ "--test" ∷ []))
        ≡ panicked unknown_mode)
parse_args-spelled_example =
    parse_args-spelled (some 32) settings (bad_mode "slow") ("--test" ∷ []) settings-IsSpelling
      (refl, (refl, (refl, tt)))

-- a clock that falls behind by 10 ns in every round
abbrev slow_rounds : ℕ → List Reads
slow_rounds zero = []
slow_rounds (suc n) =
    record { r_start = 0; c_start = 100; c_end = 1_090; r_end = 1_000 } ∷ slow_rounds n

length-slow_rounds : (n : ℕ) → length (slow_rounds n) ≡ n
length-slow_rounds zero = refl
length-slow_rounds (suc n) = ap suc (length-slow_rounds n)

abbrev log : Log
log = record {
  floats = whole_numbers;
  counts = λ c d. record {
    previous = 1_000;
    violations = 0;
    max_violation_ns = 0;
    total_reads = 65_537;
    budget_check = 65_536;
  };
  rounds = λ c threads d. [];
  reads = λ c interval n. slow_rounds n;
  reads_count = λ c interval n. length-slow_rounds n;
  wall_nanos = λ c d. 10_000_000_500;
  backed = λ c. true;
}

abbrev host_texts : HostTexts
host_texts = record {
  brand_string = none;
  cpuinfo = some "processor\t: 0\nmodel name\t: X 1 \nflags\t: fpu\n";
  processor_identifier = none;
  uname = some "6.1\n";
}

read_cpu_model-linux_example : read_cpu_model linux host_texts ≡ "X 1"
read_cpu_model-linux_example =
    read_cpu_model-linux host_texts ("processor\t: 0" ∷ []) "model name\t" " " "X 1" " "
      "flags\t: fpu\n" (ground arith) (refl, tt) (ground arith) (ground arith) (ground arith)
      (ground arith) (refl, tt) (refl, tt) refl refl refl refl

abbrev desk : Surroundings
desk = record {
  parallelism = some 8;
  wall_clock = λ measured. some (1_700_000_000_000_000_000 + measured);
  texts = host_texts;
  to_string_pretty = λ report. some report.cell;
  is_writable = λ path. true;
}

-- `--mode fast --only-clock std --output r.json`
abbrev quick : List Setting
quick = set_mode fast ∷ set_only_clock "std" ∷ set_output "r.json" ∷ []
