-- ===== src/UnitTests/Comparing.antt =====
-- src/lib.rs: the tests that compare two instants around a sleep, each with the other first.
use hotclock.Prelude.{
  ℕ, ◌+◌, ◌-◌, ◌*◌, ◌/◌, ◌^◌, ◌≤◌, ◌<◌, ◌≡◌, ◌≢◌, ◌↔◌, arith, leb, ltb, lt→ltb, ◌∙◌, true, min, sym,
  ap,
}
use native.Mathlib.Decide.{dec_lt}
use hotclock.Word.{u64_mod, u64_max}
use hotclock.Duration.{Duration, as_millis, abs_diff, from_millis, as_nanos}
use hotclock.Target.Items.{no_clock}
use hotclock.Machine.{Machine, World, next_event, at_event}
use hotclock.Calibration.Spin.{ticks_reader, ticks_at_event}
use hotclock.Convert.{duration_at}
use hotclock.Convert.Bounds.{as_nanos-duration_at, nanos_at-min}
use hotclock.Instant.{from_raw_ticks}
use hotclock.Instant.Laws.{wrapping_sub-le, duration_since_lem, duration_at-no_ticks}
use hotclock.UnitTests.{
  ordered_as_unordered_preserves_tick_value, Passes, Sleep, duration_since_saturates,
  checked_duration_since_returns_none,
}
use hotclock.UnitTests.Known.{
  assert_iff, now_known, ordered_now_known, elapsed_known, elapsed_unordered_known,
}
use hotclock.Arch.Counter.Agreement.{SplitsTsc}
use hotclock.Instant.Ordered as Ordered
use native.Mathlib.Nat.{add-mul}
use hotclock.UnitTests.Advances.{iff_trans}

at_least :
    (n p : ℕ) → n ≡ min (p / 2 ^ 32) u64_max → (leb 4_000_000 n ≡ true) ↔ (4_000_000 * 2 ^ 32 ≤ p)
at_least n p e = ground arith

module _ (m : Machine) (w : World) (clock : ticks_reader m ≢ no_clock)
    (pos : 0 < w.nanos_per_tick_q32) (sleep : Sleep) (k : ℕ)
    (dozed : sleep (from_millis 5) (next_event w) ≡ at_event w k) where
  abbrev before : ℕ
  before = ticks_at_event m w.event

  abbrev after : ℕ
  after = ticks_at_event m k

  pub duration_since_saturates_iff :
      w.nanos_per_tick_q32 < u64_mod
      → before ≤ after
      → after < u64_mod
      → Passes (duration_since_saturates m sleep w)
        ↔ (4_000_000 * 2 ^ 32 ≤ (after - before) * w.nanos_per_tick_q32)
  unfolding duration_since_saturates
  duration_since_saturates_iff hq forward fits =
      let none_left : before - after ≡ 0 = omega arith in
      rw
        (
          now_known m w clock,
          dozed,
          now_known m (at_event w k) clock,
          (duration_since_lem m (next_event (at_event w k)) (from_raw_ticks before)
              (from_raw_ticks after) pos).0,
          none_left,
          duration_at-no_ticks w.nanos_per_tick_q32,
          (duration_since_lem m (next_event (at_event w k)) (from_raw_ticks after)
              (from_raw_ticks before) pos).0,
        )
        (iff_trans (assert_iff _ (next_event (at_event w k))) (
          at_least (as_nanos (duration_at w.nanos_per_tick_q32 (after - before)))
            ((after - before) * w.nanos_per_tick_q32)
            (omega (
              arith,
              as_nanos-duration_at w.nanos_per_tick_q32 (after - before),
              nanos_at-min w.nanos_per_tick_q32 (after - before) hq (omega arith),
            ))))

  pub checked_duration_since_iff :
      Passes (checked_duration_since_returns_none m sleep w) ↔ (before < after)
  unfolding checked_duration_since_returns_none
  checked_duration_since_iff =
      let w' = next_event (at_event w k) in
      let (_, none_back, some_back) =
        duration_since_lem m w' (from_raw_ticks before) (from_raw_ticks after) pos in
      let (_, _, some_forth) =
        duration_since_lem m w' (from_raw_ticks after) (from_raw_ticks before) pos in
      elim (dec_lt before after) [
        | yes lt ↦
            rw
              (
                now_known m w clock,
                dozed,
                now_known m (at_event w k) clock,
                none_back.1 lt,
                some_forth.1 (omega arith),
              )
              (λ _. lt, λ _. tt)
        | no h ↦
            rw
              (
                now_known m w clock,
                dozed,
                now_known m (at_event w k) clock,
                some_back.1 (omega arith),
              )
              (λ fails. absurd fails, λ lt. absurd (h lt))
      ]

-- two durations from one start, timed by a difference of less than a millisecond, apart by less
apart_below :
    (a b : Duration) (p d : ℕ)
    → as_nanos a ≡ min (p / 2 ^ 32) u64_max
    → as_nanos b ≡ min ((p + d) / 2 ^ 32) u64_max
    → d < 999_999 * 2 ^ 32
    → ltb (as_millis (abs_diff a b)) 1 ≡ true
apart_below a b p d e e' small = lt→ltb _ _ (omega arith)

-- On a target that has a clock, with a scale set that is a u64 and a counter that does not go back
-- over three reads: the test passes if the ticks between the last two count below 999 999 ns.
pub ordered_as_unordered-Passes :
    (m : Machine) (w : World)
    → ticks_reader m ≢ no_clock
    → SplitsTsc m.host
    → 0 < w.nanos_per_tick_q32
    → w.nanos_per_tick_q32 < u64_mod
    → ticks_at_event m w.event ≤ ticks_at_event m (w.event + 1)
    → ticks_at_event m (w.event + 1) ≤ ticks_at_event m (w.event + 1 + 1)
    → ticks_at_event m (w.event + 1 + 1) < u64_mod
    → (ticks_at_event m (w.event + 1 + 1) - ticks_at_event m (w.event + 1)) * w.nanos_per_tick_q32
      < 999_999 * 2 ^ 32
    → Passes (ordered_as_unordered_preserves_tick_value m w)
unfolding ordered_as_unordered_preserves_tick_value Ordered.as_unordered
ordered_as_unordered-Passes m w clock s pos hq one two fits close =
    let q = w.nanos_per_tick_q32 in
    let t0 = ticks_at_event m w.event in
    let t1 = ticks_at_event m (w.event + 1) in
    let t2 = ticks_at_event m (w.event + 1 + 1) in
    let split : (t1 - t0) * q + (t2 - t1) * q ≡ (t2 - t0) * q =
      sym (add-mul (t1 - t0) (t2 - t1) q) ∙ ap (λ (t : ℕ). t * q) (omega arith) in
    rw
      (
        ordered_now_known m w clock s,
        elapsed_unordered_known m (next_event w) clock pos (record { raw = t0 }),
        elapsed_known m (next_event (next_event w)) clock pos (from_raw_ticks t0),
        wrapping_sub-le t1 t0 (omega arith) one,
        wrapping_sub-le t2 t0 fits (omega arith),
      )
      ((assert_iff _ (next_event (next_event (next_event w)))).1 (
        apart_below (duration_at q (t1 - t0)) (duration_at q (t2 - t0)) ((t1 - t0) * q)
          ((t2 - t1) * q)
          (omega
            (arith, as_nanos-duration_at q (t1 - t0), nanos_at-min q (t1 - t0) hq (omega arith)))
          (omega (
            arith,
            as_nanos-duration_at q (t2 - t0),
            nanos_at-min q (t2 - t0) hq (omega arith),
            split,
          ))
          close))
