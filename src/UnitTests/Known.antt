-- ===== src/UnitTests/Known.antt =====
-- src/lib.rs, `mod tests`: what the calls that the tests make come to, on a target that has a clock
-- and where the scale is set.
use hotclock.Prelude.{
  ℕ, ◌*◌, ◌/◌, ◌^◌, ◌≤◌, ◌<◌, ◌≡◌, ◌≢◌, ◌↔◌, refl, arith, Bool, true, false, ◌&&◌, leb, ltb, min,
}
use hotclock.Word.{u64_mod, u64_max, wrapping_sub}
use hotclock.Duration.{as_nanos}
use hotclock.Target.Items.{no_clock}
use hotclock.Machine.{Machine, World, Outcome, ok, next_event, continue}
use hotclock.Calibration.Spin.{ticks_reader, ticks_at_event, ticks-eq}
use hotclock.Convert.{duration_at}
use hotclock.Convert.Bounds.{as_nanos-duration_at, nanos_at-min}
use hotclock.Arch.Counter.Agreement.{SplitsTsc, ticks_ordered-ticks}
use hotclock.Instant.{Instant, now, elapsed, from_raw_ticks}
use hotclock.Instant.Laws.{ticks_to_duration-set}
use hotclock.Instant.Ordered as Ordered
use hotclock.UnitTests.{assert, Passes, within}

pub assert_iff : (b : Bool) (w : World) → Passes (assert b w) ↔ (b ≡ true)
assert_iff true w = (λ h. refl, λ e. tt)
assert_iff false w = (λ h. absurd h, λ e. cc e)

-- an assertion with a test after it
pub assert-then :
    (b : Bool) (w : World) (rest : World → Outcome (Unit {0}))
    → Passes (continue (assert b w) (λ _. rest)) ↔ ((b ≡ true) × Passes (rest w))
assert-then true w rest = (λ h. (refl, h), λ h. h.1)
assert-then false w rest = (λ h. absurd h, λ h. cc (h.0))

module _ (m : Machine) (w : World) (clock : ticks_reader m ≢ no_clock) where
  pub now_known : now m w ≡ ok (from_raw_ticks (ticks_at_event m w.event)) (next_event w)
  unfolding now
  now_known = rw (ticks-eq m w clock)

  pub ordered_now_known :
      SplitsTsc m.host
      → Ordered.now m w ≡ ok (record { raw = ticks_at_event m w.event }) (next_event w)
  unfolding Ordered.now
  ordered_now_known s = rw (ticks_ordered-ticks m w s, ticks-eq m w clock)

  module _ (pos : 0 < w.nanos_per_tick_q32) where
    pub elapsed_known :
        (t : Instant)
        → elapsed m t w
          ≡ ok
              (duration_at w.nanos_per_tick_q32 (wrapping_sub (ticks_at_event m w.event) t.raw))
              (next_event w)
    unfolding elapsed
    elapsed_known t = rw (ticks-eq m w clock) (ticks_to_duration-set m (next_event w) _ pos)

    pub ordered_elapsed_known :
        (t : Ordered.OrderedInstant)
        → SplitsTsc m.host
        → Ordered.elapsed m t w
          ≡ ok
              (duration_at w.nanos_per_tick_q32 (wrapping_sub (ticks_at_event m w.event) t.raw))
              (next_event w)
    unfolding Ordered.elapsed
    ordered_elapsed_known t s =
        rw (ticks_ordered-ticks m w s, ticks-eq m w clock)
          (ticks_to_duration-set m (next_event w) _ pos)

    pub elapsed_unordered_known :
        (t : Ordered.OrderedInstant)
        → Ordered.elapsed_unordered m t w
          ≡ ok
              (duration_at w.nanos_per_tick_q32 (wrapping_sub (ticks_at_event m w.event) t.raw))
              (next_event w)
    unfolding Ordered.elapsed_unordered
    elapsed_unordered_known t =
        rw (ticks-eq m w clock) (ticks_to_duration-set m (next_event w) _ pos)

between :
    (least most n p : ℕ)
    → n ≡ min (p / 2 ^ 32) u64_max
    → most < 10 ^ 12
    → ((leb least (n / 1_000_000) && ltb (n / 1_000_000) most) ≡ true)
      ↔ ((least * 1_000_000 * 2 ^ 32 ≤ p) × (p < most * 1_000_000 * 2 ^ 32))
between least most n p e small = ground arith

-- the bounds on the milliseconds of a number of ticks, as bounds on the product that makes them
pub within_iff :
    (least most q t : ℕ)
    → q < u64_mod
    → t < u64_mod
    → most < 10 ^ 12
    → (within least most (duration_at q t) ≡ true)
      ↔ ((least * 1_000_000 * 2 ^ 32 ≤ t * q) × (t * q < most * 1_000_000 * 2 ^ 32))
within_iff least most q t hq ht small =
    between least most (as_nanos (duration_at q t)) (t * q)
      (omega (arith, as_nanos-duration_at q t, nanos_at-min q t hq ht)) small
