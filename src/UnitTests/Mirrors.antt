-- ===== src/UnitTests/Mirrors.antt =====
-- src/lib.rs: the test of the arithmetic of `OrderedInstant`.
use hotclock.Prelude.{ℕ, ◌+◌, ◌-◌, ◌*◌, ◌^◌, ◌≤◌, ◌<◌, ◌≡◌, ◌≢◌, ◌↔◌, arith, some, lt→ltb}
use hotclock.Word.{u64_mod}
use hotclock.Duration.{Duration, from_millis, from_secs}
use hotclock.Target.Items.{no_clock}
use hotclock.Machine.{Machine, World, ok, next_event, at_event}
use hotclock.Calibration.Spin.{ticks_reader, ticks_at_event}
use hotclock.Convert.{duration_at, ticks_at}
use hotclock.Convert.Cached.{duration_to_ticks}
use hotclock.Arch.Counter.Agreement.{SplitsTsc}
use hotclock.Arch.Scale.Cache.{nanos_per_tick_q32_set}
use hotclock.Instant.{from_raw_ticks, duration_since, checked_duration_since}
use hotclock.Instant.Laws.{duration_since_lem, duration_at-no_ticks}
use hotclock.Instant.Ordered as Ordered
use hotclock.Instant.Ordered.{OrderedInstant}
use hotclock.UnitTests.{Passes, Sleep, within, ordered_arithmetic_mirrors}
use hotclock.UnitTests.Known.{assert_iff, assert-then, ordered_now_known, within_iff}
use hotclock.UnitTests.Advances.{iff_trans}
use hotclock.UnitTests.Sleeping.{Counts}
use hotclock.UnitTests.Arithmetic.{ticks_of, second, forth, second_drift}

module _ (m : Machine) (w : World) (pos : 0 < w.nanos_per_tick_q32) (a b : OrderedInstant) where
  since_known :
      Ordered.duration_since m a b w ≡ ok (duration_at w.nanos_per_tick_q32 (a.raw - b.raw)) w
  unfolding Ordered.duration_since duration_since checked_duration_since
  since_known = (duration_since_lem m w (from_raw_ticks a.raw) (from_raw_ticks b.raw) pos).0

  checked_since_known :
      b.raw ≤ a.raw
      → Ordered.checked_duration_since m a b w
        ≡ ok (some (duration_at w.nanos_per_tick_q32 (a.raw - b.raw))) w
  unfolding Ordered.checked_duration_since checked_duration_since
  checked_since_known le =
      (duration_since_lem m w (from_raw_ticks a.raw) (from_raw_ticks b.raw) pos).2.1 le

ordered_add_known :
    (m : Machine) (w : World) (self : OrderedInstant) (d : Duration) (t : ℕ)
    → 0 < w.nanos_per_tick_q32
    → ticks_at w.nanos_per_tick_q32 d ≡ some t
    → self.raw + t < u64_mod
    → Ordered.add m self d w ≡ ok (record { raw = self.raw + t }) w
unfolding Ordered.add duration_to_ticks
ordered_add_known m w self d t pos converted fits =
    rw (nanos_per_tick_q32_set m w pos, converted, lt→ltb _ _ fits)

-- On a target that has a clock, with a scale set of at most 998 ns a tick, a counter that has not
-- gone back over the sleep, and room for a second more: the test passes exactly if the ticks that
-- have passed count from 4 ms on to below 200 ms.
pub ordered_arithmetic_mirrors_iff :
    (m : Machine) (w : World) (sleep : Sleep) (k : ℕ)
    → ticks_reader m ≢ no_clock
    → SplitsTsc m.host
    → 0 < w.nanos_per_tick_q32
    → w.nanos_per_tick_q32 ≤ 998 * 2 ^ 32
    → sleep (from_millis 5) (next_event w) ≡ at_event w k
    → ticks_at_event m w.event ≤ ticks_at_event m k
    → ticks_at_event m k < u64_mod
    → ticks_at_event m w.event + ticks_of w.nanos_per_tick_q32 (from_secs 1) < u64_mod
    → Passes (ordered_arithmetic_mirrors m sleep w) ↔ Counts m 4 200 w.nanos_per_tick_q32 w.event k
unfolding ordered_arithmetic_mirrors Ordered.sub_instant
ordered_arithmetic_mirrors_iff m w sleep k clock s pos slow dozed forward fits room =
    let q = w.nanos_per_tick_q32 in
    let t0 = ticks_at_event m w.event in
    let t1 = ticks_at_event m k in
    let a : OrderedInstant = record { raw = t0 } in
    let b : OrderedInstant = record { raw = t1 } in
    let w' = next_event (at_event w k) in
    let none_left : t0 - t1 ≡ 0 = omega arith in
    let counts = within_iff 4 200 q (t1 - t0) (omega arith) (omega arith) (omega arith) in
    rw
      (
        ordered_now_known m w clock s,
        dozed,
        ordered_now_known m (at_event w k) clock s,
        since_known m w' pos b a,
      )
      (iff_trans (assert-then (within 4 200 (duration_at q (t1 - t0))) w' _) (
        λ h. counts.0 h.0,
        λ c. (
          counts.1 c,
          rw
              (
                since_known m w' pos a b,
                none_left,
                duration_at-no_ticks q,
                checked_since_known m w' pos b a forward,
                ordered_add_known m w' a (from_secs 1) (ticks_of q (from_secs 1)) pos
                    (second m w clock pos slow room) room,
                since_known m w' pos (record { raw = t0 + ticks_of q (from_secs 1) }) a,
                forth m w clock pos slow room (ticks_of q (from_secs 1)),
              )
              ((assert_iff _ w').1 (second_drift m w clock pos slow room)),
        ),
      ))
