-- ===== src/Examples/RaceExamples.antt =====
-- Two threads that both find the cache unset, on a machine that has to be calibrated.
use hotclock.Prelude.{
  ℕ, ◌≤◌, ◌*◌, ◌^◌, ◌<◌, ◌≡◌, ◌⊎◌, true, refl, some, none, sym, subst, ◌∙◌, arith,
}
use hotclock.Target.{on_x86_direct}
use hotclock.Target.Items.{read_frequency_items}
use hotclock.Machine.{Machine, World, ok}
use hotclock.Background.{spawned}
use hotclock.Arch.X86_64
use hotclock.Arch.Frequency.{read_frequency}
use hotclock.Arch.Scale.{scale_of, nanos_per_tick_q32, recalibrate}
use hotclock.Arch.Scale.Cache.{
  stored, started, nanos_per_tick_q32_unset, derive_scale-pos, recalibrate_x86_lem,
}
use hotclock.Arch.Race.Solo.{Solo, calls-Solo}
use hotclock.Arch.Race.{
  Threads, idle, dividing, storing, starting, set_pc, here, next, step, load_unset, derive, store,
  Reach, fresh, spawning, leave, find_set, returned,
}
use hotclock.Arch.Race.Progress.{
  Answers, Enabled, Waits, own_steps, has_returned, lazy_start_progress,
}
use hotclock.Examples.ElapsedExamples.{
  fine, fine_has_clock, fine_moves_on, fine-IsSteady, fine_measured,
}
use hotclock.Arch.Race.Agreement.{Reports, Agreed, Reach-Agreed}
use hotclock.Calibration.{calibrate_frequency}
use hotclock.Calibration.Accuracy.{IsCloseTo, calibrate_frequency_accurate}
use hotclock.Examples.Hosts.{calibrating, world}
use hotclock.Examples.ScaleExamples.{
  calibrating_has_clock, calibrating_moves_on, calibrating-IsSteady, calibrating_measures,
}

-- the frequencies near 3 GHz that the calibration may return
abbrev IsNear : ℕ → Type 0
IsNear = IsCloseTo 3_000_000_000 5_000_000 0

measured-IsNear :
    (w w' : World) (f : ℕ)
    → calibrate_frequency calibrating w ≡ ok f w'
    → IsNear f × (f ≤ 1_000_000_000 * 2 ^ 32)
measured-IsNear w w' f e =
    let (f', k, e', close) =
      calibrate_frequency_accurate calibrating w 3_000_000_000 5_000_000 0 calibrating_has_clock
        calibrating_moves_on calibrating-IsSteady (omega arith) in
    let same : f' ≡ f = cc (sym e' ∙ e) in
    let near_f : IsNear f = subst IsNear same close in (near_f, omega arith)

reads_calibrated : (w : World) → read_frequency calibrating w ≡ calibrate_frequency calibrating w
unfolding read_frequency read_frequency_items X86_64.cpuid_tsc_hz
reads_calibrated w = refl

reports : Reports calibrating IsNear
reports = record {
  read = λ w w' f e pos. measured-IsNear w w' f (sym (reads_calibrated w) ∙ e);
  measured = λ w w' f e pos. measured-IsNear w w' f e;
}

-- both threads load 0; the first divides and stores
abbrev raced : Threads
raced =
    let q = scale_of 1_500_000_000 in
    record {
      world = stored q (world 25 0);
      holder = none;
      pcs =
          set_pc (set_pc (set_pc (set_pc (λ i. idle) 0 dividing) 1 dividing) 0 (storing q)) 0
            (starting q);
    }

race : Reach calibrating fresh raced
race =
    next
      (next (next (next here (step 0 (load_unset refl))) (step 1 (load_unset refl)))
        (step 0 (derive (reads_calibrated (world 0 0) ∙ calibrating_measures) (omega arith))))
      (step 0 store)

Reach-Agreed_example : Agreed IsNear raced
Reach-Agreed_example = Reach-Agreed calibrating IsNear reports race

-- a machine whose calibration never measures 0
pub fine-Answers : Answers fine
fine-Answers w =
    let (hz, k, e, close) =
      calibrate_frequency_accurate fine w 3_000_000_000 100_000 0 fine_has_clock fine_moves_on
        fine-IsSteady (omega arith) in
    (hz, _, fine_measured w ∙ e, omega arith)

-- the feature is on, and the spawn succeeds
abbrev spawning_fine : Machine
spawning_fine = record fine { recalibrate_background = true }

spawning_fine-Answers : Answers spawning_fine
spawning_fine-Answers w =
    let (hz, k, e, close) =
      calibrate_frequency_accurate fine w 3_000_000_000 100_000 0 fine_has_clock fine_moves_on
        fine-IsSteady (omega arith) in
    (hz, _, fine_measured w ∙ e, omega arith)

-- both threads find the cache unset
abbrev first_in : Threads
first_in = record fresh { pcs = set_pc (λ i. idle) 0 dividing }

entering : Reach spawning_fine fresh first_in
entering = next here (step 0 (load_unset refl))

abbrev both_in : Threads
both_in = record first_in { pcs = set_pc first_in.pcs 1 dividing }

crowding : Reach spawning_fine first_in both_in
crowding = next here (step 1 (load_unset refl))

lazy_start_progress_example :
    ((has_returned 0 crowding ≡ true)
      ⊎ (Enabled spawning_fine both_in 0 ⊎ Waits spawning_fine both_in 0))
    × ((has_returned 0 crowding ≡ true) ⊎ (own_steps 0 crowding < 4))
lazy_start_progress_example =
    lazy_start_progress spawning_fine first_in both_in 0 entering crowding spawning_fine-Answers
      refl

-- where thread 0 has entered the closure, thread 1 has to wait, and goes on after it
abbrev at_start : Threads
at_start = record {
  world = stored 1 (world 0 0);
  holder = some 0;
  pcs = set_pc (set_pc (λ i. idle) 1 (starting 1)) 0 (spawning 1);
}

waiting : Waits spawning_fine at_start 1
unfolding spawned
waiting = (
  refl,
  1,
  refl,
  0,
  refl,
  λ e. omega (arith, e),
  _,
  leave 0 refl,
  refl,
  (_, step 1 (find_set refl refl), refl),
)

calibrated_load :
    let q = scale_of 1_500_000_000 in
    nanos_per_tick_q32 calibrating fresh.world ≡ ok q (started calibrating (stored q (world 25 0)))
calibrated_load =
    nanos_per_tick_q32_unset calibrating (world 0 0) refl
    ∙ derive_scale-pos calibrating (world 0 0) (world 25 0) 1_500_000_000
        (reads_calibrated (world 0 0) ∙ calibrating_measures) (omega arith)

calibrated_again :
    recalibrate calibrating fresh.world ≡ ok tt (stored (scale_of 1_500_000_000) (world 25 0))
unfolding on_x86_direct
calibrated_again =
    (recalibrate_x86_lem calibrating (world 0 0) (world 25 0) 1_500_000_000 refl
        calibrating_measures).1
      (omega arith)

-- thread 0 alone, on a machine that has to be calibrated
calls-Solo_example :
    let q = scale_of 1_500_000_000 in
    Solo calibrating fresh 0 (started calibrating (stored q (world 25 0))) none (returned q)
    × Solo calibrating fresh 0 (stored q (world 25 0)) none idle
calls-Solo_example =
    calls-Solo calibrating fresh 0 (scale_of 1_500_000_000)
      (started calibrating (stored (scale_of 1_500_000_000) (world 25 0)))
      (stored (scale_of 1_500_000_000) (world 25 0)) refl refl calibrated_load calibrated_again
