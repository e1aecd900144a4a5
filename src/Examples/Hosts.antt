-- ===== src/Examples/Hosts.antt =====
-- Concrete machines: a Linux x86_64 host with and without CPUID leaf 0x15.
use hotclock.Prelude.{ℕ, ◌*◌, ◌/◌, ◌%◌, ◌^◌, ◌==◌, true, false, if◌then◌else◌}
use hotclock.Word.{u64_mod}
use hotclock.Target.{Arch, x86_64, linux}
use hotclock.Word.Floats.{F64}
use hotclock.Machine.{Host, Machine, World, CpuidResult}

-- a TSC of 3 GHz, read every 5 ms
abbrev pub tsc : ℕ → ℕ
tsc k = 15_000_000 * k % u64_mod

abbrev pub no_leaf : ℕ → CpuidResult
no_leaf leaf = record { eax = 0; ebx = 0; ecx = 0 }

-- a crystal of 24 MHz with the ratio 250 / 2
abbrev pub leaf_15h : ℕ → CpuidResult
leaf_15h leaf =
    if leaf == 0
    then record { eax = 0x16; ebx = 0; ecx = 0 }
    else record { eax = 2; ebx = 250; ecx = 24_000_000 }

-- floating point of whole numbers
instance abbrev pub whole_numbers : F64
whole_numbers = record {
  of_i64 = λ bits. bits;
  of_u64 = λ bits. bits;
  to_u64 = λ bits. bits % u64_mod;
  mul = λ x y. x * y % u64_mod;
  div = λ x y. x / y;
}

abbrev pub host : (ℕ → CpuidResult) → Host
host leaves = record {
  rdtsc_intrinsic = tsc;
  rdtsc_halves = λ k. record { hi = tsc k / 2 ^ 32; lo = tsc k % 2 ^ 32 };
  cpuid = leaves;
  cntvct_el0 = λ k. k;
  cntfrq_el0 = 24_000_000;
  rdtime_csr = λ k. k;
  rdtime_d = λ k. k;
  performance_now = λ k. k;
  floats = whole_numbers;
  mach_absolute_time = λ k. k;
  mach_timebase_info = record { numer = 1; denom = 1 };
  query_performance_frequency = 10_000_000;
  clock_gettime = λ k. record { tv_sec = 0; tv_nsec = 5_000_000 * k };
  clock_time_get = λ k. k;
  spawn_succeeds = λ k. true;
}

abbrev pub machine : Arch → (ℕ → CpuidResult) → Machine
machine a leaves = record {
  target = record { arch = a; os = linux };
  host = host leaves;
  recalibrate_background = true;
  spins = 10;
}

-- an x86_64 host that has to be calibrated, and one whose CPUID knows the frequency
abbrev pub calibrating : Machine
calibrating = machine x86_64 no_leaf

abbrev pub nominal : Machine
nominal = machine x86_64 leaf_15h

-- after `event` reads, with a cached scale
abbrev pub world : ℕ → ℕ → World
world event scale = record {
  event = event;
  nanos_per_tick_q32 = scale;
  interval_secs = 60;
  thread_set = false;
  threads = 0;
}
