-- ===== src/UnitTests/Sleeping.antt =====
-- src/lib.rs: the tests that time a sleep.
use hotclock.Prelude.{ℕ, ◌-◌, ◌*◌, ◌^◌, ◌≤◌, ◌<◌, ◌≡◌, ◌≢◌, ◌↔◌, arith}
use hotclock.Word.{u64_mod, wrapping_sub}
use hotclock.Duration.{from_millis}
use hotclock.Target.Items.{no_clock}
use hotclock.Machine.{Machine, World, ok, next_event, at_event}
use hotclock.Calibration.Spin.{ticks_reader, ticks_at_event}
use hotclock.Convert.{duration_at}
use hotclock.Arch.Counter.Agreement.{SplitsTsc}
use hotclock.Instant.{from_raw_ticks, recalibrate, sub_instant}
use hotclock.Instant.Laws.{wrapping_sub-le, duration_since_lem}
use hotclock.UnitTests.{
  Passes, Sleep, assert, within, elapsed_after_sleep, ordered_elapsed_after_sleep,
  ordered_elapsed_unordered_after_sleep, sub_instant_returns_elapsed, duration_since_saturates,
  checked_duration_since_returns_none, recalibrate_does_not_perturb,
}
use hotclock.UnitTests.Known.{
  assert_iff, now_known, ordered_now_known, elapsed_known, elapsed_unordered_known,
  ordered_elapsed_known, within_iff,
}
use hotclock.UnitTests.Comparing.{duration_since_saturates_iff, checked_duration_since_iff}
use hotclock.UnitTests.Advances.{iff_trans}

-- the ticks between two reads, timed at a scale, count from `least` milliseconds on to below `most`
abbrev pub Counts : Machine → ℕ → ℕ → ℕ → ℕ → ℕ → Type 0
Counts m least most q i j =
    let product = (ticks_at_event m j - ticks_at_event m i) * q in
    (least * 1_000_000 * 2 ^ 32 ≤ product) × (product < most * 1_000_000 * 2 ^ 32)

-- the assertion at the end of these tests
timed_iff :
    (m : Machine) (least most q i j : ℕ) (w : World)
    → q < u64_mod
    → ticks_at_event m i ≤ ticks_at_event m j
    → ticks_at_event m j < u64_mod
    → most < 10 ^ 12
    → Passes (
        assert
          (within least most
            (duration_at q (wrapping_sub (ticks_at_event m j) (ticks_at_event m i))))
          w)
      ↔ Counts m least most q i j
timed_iff m least most q i j w hq forward fits small = rw (wrapping_sub-le _ _ fits forward) (
    iff_trans (assert_iff _ w)
      (within_iff least most q (ticks_at_event m j - ticks_at_event m i) hq (omega arith) small))

module _ (m : Machine) (w : World) (clock : ticks_reader m ≢ no_clock)
    (pos : 0 < w.nanos_per_tick_q32) (hq : w.nanos_per_tick_q32 < u64_mod) (sleep : Sleep) (e : ℕ)
    (forward : ticks_at_event m w.event ≤ ticks_at_event m e)
    (fits : ticks_at_event m e < u64_mod) where
  elapsed_after_sleep_iff :
      sleep (from_millis 10) (next_event w) ≡ at_event w e
      → Passes (elapsed_after_sleep m sleep w) ↔ Counts m 9 200 w.nanos_per_tick_q32 w.event e
  unfolding elapsed_after_sleep
  elapsed_after_sleep_iff slept =
      rw (now_known m w clock, slept, elapsed_known m (at_event w e) clock pos _)
        (timed_iff m 9 200 w.nanos_per_tick_q32 w.event e _ hq forward fits (omega arith))

  ordered_elapsed_after_sleep_iff :
      SplitsTsc m.host
      → sleep (from_millis 10) (next_event w) ≡ at_event w e
      → Passes (ordered_elapsed_after_sleep m sleep w)
        ↔ Counts m 9 200 w.nanos_per_tick_q32 w.event e
  unfolding ordered_elapsed_after_sleep
  ordered_elapsed_after_sleep_iff s slept =
      rw
        (ordered_now_known m w clock s, slept, ordered_elapsed_known m (at_event w e) clock pos _ s)
        (timed_iff m 9 200 w.nanos_per_tick_q32 w.event e _ hq forward fits (omega arith))

  ordered_elapsed_unordered_after_sleep_iff :
      SplitsTsc m.host
      → sleep (from_millis 10) (next_event w) ≡ at_event w e
      → Passes (ordered_elapsed_unordered_after_sleep m sleep w)
        ↔ Counts m 9 200 w.nanos_per_tick_q32 w.event e
  unfolding ordered_elapsed_unordered_after_sleep
  ordered_elapsed_unordered_after_sleep_iff s slept =
      rw
        (ordered_now_known m w clock s, slept, elapsed_unordered_known m (at_event w e) clock pos _)
        (timed_iff m 9 200 w.nanos_per_tick_q32 w.event e _ hq forward fits (omega arith))

  sub_instant_returns_elapsed_iff :
      sleep (from_millis 5) (next_event w) ≡ at_event w e
      → Passes (sub_instant_returns_elapsed m sleep w)
        ↔ Counts m 4 200 w.nanos_per_tick_q32 w.event e
  unfolding sub_instant_returns_elapsed sub_instant
  sub_instant_returns_elapsed_iff slept =
      rw
        (
          now_known m w clock,
          slept,
          now_known m (at_event w e) clock,
          (duration_since_lem m (next_event (at_event w e)) (from_raw_ticks (ticks_at_event m e))
              (from_raw_ticks (ticks_at_event m w.event)) pos).0,
        )
        (iff_trans (assert_iff _ (next_event (at_event w e))) (
          within_iff 4 200 w.nanos_per_tick_q32 (ticks_at_event m e - ticks_at_event m w.event) hq
            (omega arith) (omega arith)))

  recalibrate_does_not_perturb_iff :
      (w' : World)
      → sleep (from_millis 20) (next_event w) ≡ at_event w e
      → recalibrate m (at_event w e) ≡ ok tt w'
      → 0 < w'.nanos_per_tick_q32
      → w'.nanos_per_tick_q32 < u64_mod
      → ticks_at_event m e ≤ ticks_at_event m w'.event
      → ticks_at_event m w'.event < u64_mod
      → Passes (recalibrate_does_not_perturb m sleep w)
        ↔ Counts m 19 500 w'.nanos_per_tick_q32 w.event w'.event
  unfolding recalibrate_does_not_perturb
  recalibrate_does_not_perturb_iff w' slept done pos' hq' forward' fits' =
      rw (now_known m w clock, slept, done, elapsed_known m w' clock pos' _)
        (timed_iff m 19 500 w'.nanos_per_tick_q32 w.event w'.event _ hq' (omega arith) fits'
          (omega arith))

-- On a target that has a clock, where the two halves of the TSC are those of its intrinsic, with
-- a scale set that is a u64, and a counter, a u64, that has not gone back over the sleep: the
-- tests that sleep for 10 ms and time it by `elapsed`, by that of `OrderedInstant` or by
-- `elapsed_unordered` pass exactly if the ticks that have passed count at the scale from 9 ms on
-- to below 200 ms; of those that compare two instants around 5 ms, the one that subtracts
-- exactly if from 4 ms on to below 200 ms, the one on `duration_since` exactly if from 4 ms on,
-- and the one on `checked_duration_since` exactly if any tick has passed.
pub sleep_tests_iff :
    (m : Machine) (w : World) (sleep : Sleep) (e k : ℕ)
    → ticks_reader m ≢ no_clock
    → SplitsTsc m.host
    → 0 < w.nanos_per_tick_q32
    → w.nanos_per_tick_q32 < u64_mod
    → sleep (from_millis 10) (next_event w) ≡ at_event w e
    → sleep (from_millis 5) (next_event w) ≡ at_event w k
    → ticks_at_event m w.event ≤ ticks_at_event m e
    → ticks_at_event m e < u64_mod
    → ticks_at_event m w.event ≤ ticks_at_event m k
    → ticks_at_event m k < u64_mod
    → (Passes (elapsed_after_sleep m sleep w) ↔ Counts m 9 200 w.nanos_per_tick_q32 w.event e)
      × (Passes (ordered_elapsed_after_sleep m sleep w)
          ↔ Counts m 9 200 w.nanos_per_tick_q32 w.event e)
      × (Passes (ordered_elapsed_unordered_after_sleep m sleep w)
          ↔ Counts m 9 200 w.nanos_per_tick_q32 w.event e)
      × (Passes (sub_instant_returns_elapsed m sleep w)
          ↔ Counts m 4 200 w.nanos_per_tick_q32 w.event k)
      × (Passes (duration_since_saturates m sleep w) ↔ (
          4_000_000 * 2 ^ 32
          ≤ (ticks_at_event m k - ticks_at_event m w.event) * w.nanos_per_tick_q32))
      × (Passes (checked_duration_since_returns_none m sleep w)
          ↔ (ticks_at_event m w.event < ticks_at_event m k))
sleep_tests_iff m w sleep e k clock s pos hq slept dozed forward fits forward' fits' = (
  elapsed_after_sleep_iff m w clock pos hq sleep e forward fits slept,
  ordered_elapsed_after_sleep_iff m w clock pos hq sleep e forward fits s slept,
  ordered_elapsed_unordered_after_sleep_iff m w clock pos hq sleep e forward fits s slept,
  sub_instant_returns_elapsed_iff m w clock pos hq sleep k forward' fits' dozed,
  duration_since_saturates_iff m w clock pos sleep k dozed hq forward' fits',
  checked_duration_since_iff m w clock pos sleep k dozed,
)
