-- ===== src/Examples/UnitTestsExamples.antt =====
-- src/lib.rs, `mod tests`: the tests on a host whose counter of 3 GHz is read every 5 ms.
use hotclock.Prelude.{◌≢◌, ◌+◌, ◌-◌, ◌/◌, ◌↔◌, ◌*◌, ◌^◌, ◌≤◌, ◌<◌, arith, refl}
use hotclock.Duration.{as_millis}
use hotclock.Machine.{World, at_event}
use hotclock.Calibration.Spin.{ticks_reader, ticks_at_event}
use hotclock.Arch.Counter.{counter_value}
use hotclock.Arch.X86_64 as X86_64
use hotclock.Arch.Counter.Agreement.{SplitsTsc}
use hotclock.UnitTests.{
  recalibrate_repeatedly, Passes, Sleep, now_advances, ordered_now_advances, elapsed_after_sleep,
  ordered_elapsed_after_sleep, ordered_elapsed_unordered_after_sleep, sub_instant_returns_elapsed,
  duration_since_saturates, checked_duration_since_returns_none, add_duration_advances_time,
  sub_duration_and_add_assign,
}
use hotclock.UnitTests.Advances.{Rises, now_advances_iff}
use hotclock.UnitTests.Sleeping.{Counts, sleep_tests_iff}
use hotclock.UnitTests.Arithmetic.{arithmetic_tests-Passes}
use hotclock.Target.Items.{no_clock, ticks_items}
use hotclock.UnitTests.Recalibrating.{recalibrate_repeatedly-Passes}
use hotclock.Examples.Hosts.{nominal, world}
use hotclock.Examples.ElapsedExamples.{fine, fine_has_clock, fine_moves_on}
use hotclock.Examples.RaceExamples.{fine-Answers}

abbrev started : World
started = world 30 1431655765

nominal_splits : SplitsTsc nominal.host
nominal_splits = record {
  hi_fits = λ k. omega arith;
  lo_fits = λ k. omega arith;
  whole = λ k. omega arith;
}

nominal_has_clock : ticks_reader nominal ≢ no_clock
unfolding ticks_items
nominal_has_clock e = cc e

-- it ends at the read at which the time is over
abbrev doze : Sleep
doze d w = at_event w (w.event + as_millis d / 5 - 1)

now_advances_iff_example :
    (Passes (now_advances 10_000 nominal started)
      ↔ Rises (ticks_at_event nominal) (ticks_at_event nominal 30) 31 10_000)
    × (Passes (ordered_now_advances 10_000 nominal started)
        ↔ Rises (ticks_at_event nominal) (ticks_at_event nominal 30) 31 10_000)
now_advances_iff_example = now_advances_iff nominal started 10_000 nominal_has_clock nominal_splits

sleep_tests_iff_example :
    (Passes (elapsed_after_sleep nominal doze started) ↔ Counts nominal 9 200 1431655765 30 32)
    × (Passes (ordered_elapsed_after_sleep nominal doze started)
        ↔ Counts nominal 9 200 1431655765 30 32)
    × (Passes (ordered_elapsed_unordered_after_sleep nominal doze started)
        ↔ Counts nominal 9 200 1431655765 30 32)
    × (Passes (sub_instant_returns_elapsed nominal doze started)
        ↔ Counts nominal 4 200 1431655765 30 31)
    × (Passes (duration_since_saturates nominal doze started) ↔ (
        4_000_000 * 2 ^ 32 ≤ (ticks_at_event nominal 31 - ticks_at_event nominal 30) * 1431655765))
    × (Passes (checked_duration_since_returns_none nominal doze started)
        ↔ (ticks_at_event nominal 30 < ticks_at_event nominal 31))
unfolding counter_value ticks_items X86_64.rdtsc
sleep_tests_iff_example =
    sleep_tests_iff nominal started doze 32 31 nominal_has_clock nominal_splits (omega arith)
      (omega arith) refl refl (omega arith) (omega arith) (omega arith) (omega arith)

arithmetic_tests-Passes_example :
    Passes (add_duration_advances_time nominal started)
    × Passes (sub_duration_and_add_assign nominal started)
unfolding counter_value ticks_items X86_64.rdtsc
arithmetic_tests-Passes_example =
    arithmetic_tests-Passes nominal started nominal_has_clock (omega arith) (omega arith)
      (omega arith) (omega arith)

recalibrate_repeatedly-Passes_example : Passes (recalibrate_repeatedly fine (world 0 0))
recalibrate_repeatedly-Passes_example =
    recalibrate_repeatedly-Passes fine (world 0 0) fine_has_clock fine_moves_on fine-Answers
