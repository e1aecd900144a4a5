-- ===== src/Skew/Program.antt =====
-- benches/skew.rs, `main`: from the arguments to the report that is printed or written. The texts
-- that name the host, the wall clock, the JSON text and the file system are parameters.
pub mod Delivery
use Prim.Native.String.{String}
use hotclock.Prelude.{ℕ, ◌%◌, Bool, Option, none, some, List, [], length, if◌then◌else◌}
use hotclock.Word.{u32_mod}
use hotclock.Target.{Target, Arch, x86_64, aarch64, Os, linux, macos, windows}
use hotclock.Machine.{Machine, World, Panic, Outcome, ok, panic, spinning}
use hotclock.Bench.Frequency.{tach_freq_hz, tach_used_cpuid_15h}
use hotclock.Skew.Args.{Args, ArgPanic, Parsed, parsed, panicked, parse_args}
use hotclock.Skew.Commands.{HostTexts, read_cpu_model, read_kernel}
use hotclock.Skew.Clocks.{Bench, ClockReport, all_clocks, report}

unfoldable pub target_triple : Arch → Os → String
target_triple aarch64 macos = "aarch64-apple-darwin"
target_triple aarch64 linux = "aarch64-unknown-linux-gnu"
target_triple x86_64 linux = "x86_64-unknown-linux-gnu"
target_triple x86_64 macos = "x86_64-apple-darwin"
target_triple x86_64 windows = "x86_64-pc-windows-msvc"
target_triple aarch64 windows = "aarch64-pc-windows-msvc"
target_triple _ _ = "unknown-triple"

pub record HostInfo : Type 0 where
  pub cpu_model : String
  pub num_cpus : ℕ
  pub kernel : String

pub record CellReport : Type 0 where
  pub schema : String
  pub cell : String
  pub target_triple : String
  pub started_at_unix_ns : ℕ
  pub host : HostInfo
  pub tach_freq_hz : ℕ
  pub tach_used_cpuid_15h : Bool
  pub clocks : List (String × ClockReport)

-- What the program is run in: `available_parallelism`, the nanoseconds of the wall
-- clock since 1970 after some number of clocks has been measured (`none` for a time before), the
-- texts that name the host, `to_string_pretty`, and the files that can be written.
pub record Surroundings : Type 0 where
  pub parallelism : Option ℕ
  pub wall_clock : ℕ → Option ℕ
  pub texts : HostTexts
  pub to_string_pretty : CellReport → Option String
  pub is_writable : String → Bool

-- `unwrap_or(0)`
abbrev pub or_zero : Option ℕ → ℕ
or_zero none = 0
or_zero (some n) = n

abbrev pub cpus : Option ℕ → ℕ
cpus none = 0
cpus (some n) = n % u32_mod

abbrev pub gather_host_info : Os → Surroundings → HostInfo
gather_host_info os env = record {
  cpu_model = read_cpu_model os env.texts;
  num_cpus = cpus env.parallelism;
  kernel = read_kernel env.texts;
}

-- the report is put together after the last clock
abbrev pub cell_report :
    Machine → Surroundings → Args → ℕ → List (String × ClockReport) → CellReport
cell_report m env args freq clocks = record {
  schema = "tach-skew-bench/v1";
  cell = args.cell;
  target_triple = target_triple m.target.arch m.target.os;
  started_at_unix_ns = or_zero (env.wall_clock (length clocks));
  host = gather_host_info m.target.os env;
  tach_freq_hz = freq;
  tach_used_cpuid_15h = tach_used_cpuid_15h m;
  clocks = clocks;
}

-- how the program ends
pub data Ended : Type 0 where
  printed : String → Ended
  written : String → String → Ended
  bad_arguments : ArgPanic → Ended
  frequency_panic : Panic → Ended
  frequency_stuck measurement_panic not_serialized not_written : Ended

unfoldable pub deliver : Surroundings → Option String → Option String → Ended
deliver env output none = not_serialized
deliver env none (some json) = printed json
deliver env (some path) (some json) =
    if env.is_writable path then written path json else not_written

after_clocks : Machine → Surroundings → Args → ℕ → Option (List (String × ClockReport)) → Ended
unfolding deliver
after_clocks m env args freq none = measurement_panic
after_clocks m env args freq (some clocks) =
    deliver env args.output (env.to_string_pretty (cell_report m env args freq clocks))

after_frequency : Machine → Bench → Surroundings → Args → Outcome ℕ → Ended
unfolding after_clocks
after_frequency m b env args (panic p) = frequency_panic p
after_frequency m b env args spinning = frequency_stuck
after_frequency m b env args (ok freq w) =
    after_clocks m env args freq
      (report b m.recalibrate_background args (all_clocks m.recalibrate_background) [])

after_args : Machine → World → Bench → Surroundings → Parsed Args → Ended
unfolding after_frequency
after_args m w b env (panicked p) = bad_arguments p
after_args m w b env (parsed args) = after_frequency m b env args (tach_freq_hz m w)

unfoldable pub main : Machine → World → Bench → Surroundings → List String → Ended
unfolding after_args
main m w b env argv = after_args m w b env (parse_args env.parallelism argv)
