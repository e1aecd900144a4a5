-- ===== src/Examples/ScaleExamples.antt =====
-- The calibration, the cache and the background thread on the machines of `Hosts`.
use hotclock.Prelude.{ℕ, ◌+◌, ◌*◌, ◌^◌, ◌≤◌, ◌≡◌, ◌≢◌, ◌↔◌, some, refl, sym, ◌∙◌, arith, true}
use hotclock.Duration.{as_nanos, from_secs}
use hotclock.Convert.{duration_at}
use hotclock.Target.{on_x86_direct}
use hotclock.Target.Items.{no_clock, ticks_items, read_frequency_items}
use hotclock.Machine.{World, ok, at_event}
use hotclock.Arch.X86_64
use hotclock.Arch.X86
use hotclock.Arch.Fallback
use hotclock.Arch.Counter.{ticks, counter_value}
use hotclock.Arch.Counter.Agreement.{SplitsTsc, IsTscFrequency, cpuid_tsc_hz_lem}
use hotclock.Arch.Frequency.{read_frequency}
use hotclock.Arch.Scale.{
  nanos_per_tick_q32, derive_scale, recalibrate, scale_of, nanos_per_second_q32,
}
use hotclock.Arch.Scale.Accuracy.{duration_at-scale_of}
use hotclock.Arch.Scale.Cache.{nanos_per_tick_q32_once}
use hotclock.Calibration.{sample, samples, estimate, median, calibrate_frequency}
use hotclock.Calibration.Spin.{ticks_reader, ClockMovesOn}
use hotclock.Calibration.Accuracy.{IsSteady, IsCloseTo, calibrate_frequency_accurate}
use hotclock.Background.{ensured, ensure_thread, set_recalibration_interval}
use hotclock.Background.Loop.{
  init, loading, sleeping, here, next, call, turn, configured, scaled, load,
}
use hotclock.Background.Loop.Safety.{Statics, IsNap, Reach-Statics, IsPlausible, recalibrate_first}
use hotclock.Examples.Hosts.{calibrating, nominal, world}

pub calibrating_has_clock : ticks_reader calibrating ≢ no_clock
unfolding ticks_items
calibrating_has_clock e = cc e

pub calibrating_moves_on : ClockMovesOn calibrating
unfolding Fallback.clock_monotonic
calibrating_moves_on e = (e + 2, omega arith, omega arith, omega arith)

pub calibrating-IsSteady : IsSteady calibrating 3_000_000_000 5_000_000 0
unfolding Fallback.clock_monotonic counter_value ticks_items X86_64.rdtsc
calibrating-IsSteady = record {
  fast = λ i j a b. omega arith;
  slow = λ i j a b. omega arith;
  adds = λ i j k a b c. omega arith;
  close = λ i. omega arith;
}

calibrate_frequency_accurate_example :
    (hz : ℕ) × (k : ℕ) × (calibrate_frequency calibrating (world 0 0)
      ≡ ok hz (at_event (world 0 0) k))
    × IsCloseTo 3_000_000_000 5_000_000 0 hz
calibrate_frequency_accurate_example =
    calibrate_frequency_accurate calibrating (world 0 0) 3_000_000_000 5_000_000 0
      calibrating_has_clock calibrating_moves_on calibrating-IsSteady (omega arith)

duration_at-scale_of_example :
    let nanos = as_nanos (duration_at (scale_of 24_000_000) 48_000_000) in
    (nanos * 24_000_000 ≤ 48_000_000 * 1_000_000_000)
    × (48_000_000 * nanos_per_second_q32
        ≤ (nanos + 1) * 2 ^ 32 * 24_000_000 + 48_000_000 * 24_000_000)
unfolding duration_at scale_of
duration_at-scale_of_example =
    duration_at-scale_of 24_000_000 48_000_000 (omega arith) (omega arith) (omega arith)

-- the CPUID of `nominal` reports 3 GHz
nominal_frequency : read_frequency nominal (world 0 0) ≡ ok 3_000_000_000 (world 0 0)
unfolding read_frequency read_frequency_items X86_64.cpuid_tsc_hz
nominal_frequency = refl

cpuid_tsc_hz_lem_example :
    ((X86_64.cpuid_tsc_hz nominal.host ≡ some 3_000_000_000)
      ↔ IsTscFrequency nominal.host 3_000_000_000)
    × (X86.cpuid_tsc_hz nominal.host ≡ X86_64.cpuid_tsc_hz nominal.host)
cpuid_tsc_hz_lem_example =
    cpuid_tsc_hz_lem nominal.host 3_000_000_000 (omega arith, omega arith, omega arith)

abbrev running : World
running = record {
  event = 0;
  nanos_per_tick_q32 = 1431655765;
  interval_secs = 60;
  thread_set = true;
  threads = 1;
}

nominal_load : nanos_per_tick_q32 nominal (world 0 0) ≡ ok 1431655765 running
unfolding nanos_per_tick_q32 derive_scale scale_of read_frequency read_frequency_items
    X86_64.cpuid_tsc_hz ensure_thread ensured
nominal_load = refl

nanos_per_tick_q32_once_example :
    (running.nanos_per_tick_q32 ≡ 1431655765)
    × (nanos_per_tick_q32 nominal running ≡ ok 1431655765 running)
nanos_per_tick_q32_once_example =
    nanos_per_tick_q32_once nominal (world 0 0) running 1431655765 nominal_load (omega arith)

pub calibrating_measures :
    calibrate_frequency calibrating init.world ≡ ok 1_500_000_000 (world 25 0)
unfolding calibrate_frequency samples sample estimate median ticks ticks_items counter_value
    X86_64.rdtsc Fallback.clock_monotonic
calibrating_measures = refl

-- the interval is configured, the first load starts the thread, and the thread goes to sleep
Reach-Statics_example : Statics (record running { interval_secs = 5 }) × IsNap (sleeping 5)
unfolding set_recalibration_interval nanos_per_tick_q32 derive_scale scale_of read_frequency
    read_frequency_items X86_64.cpuid_tsc_hz ensure_thread ensured
Reach-Statics_example =
    Reach-Statics {m = nominal}
      {s = record { world = record running { interval_secs = 5 }; pc = sleeping 5 }}
      (next
        (next (next here (call (configured (from_secs 5) refl))) (call (scaled 1431655765 refl)))
        (turn (omega arith) load))

calibrating-IsPlausible : IsPlausible calibrating
calibrating-IsPlausible w w' hz e =
    let (hz', k, e', close) =
      calibrate_frequency_accurate calibrating w 3_000_000_000 5_000_000 0 calibrating_has_clock
        calibrating_moves_on calibrating-IsSteady (omega arith) in
    let same : hz ≡ hz' = cc (sym e ∙ e') in omega arith

recalibrate_first_example : ◌≡◌ {A = ℕ} (world 25 2863311530).threads 0
unfolding recalibrate on_x86_direct scale_of calibrate_frequency samples sample estimate median
    ticks ticks_items counter_value X86_64.rdtsc Fallback.clock_monotonic
recalibrate_first_example =
    (recalibrate_first calibrating (world 25 2863311530)
      {t = record { world = world 25 2863311530; pc = loading }} calibrating-IsPlausible refl
      (omega arith) here).1

splits : SplitsTsc calibrating.host
splits = record { hi_fits = λ k. omega arith; lo_fits = λ k. omega arith; whole = λ k. omega arith }
