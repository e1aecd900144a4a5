-- ===== src/Bench/Sources/Answering.antt =====
-- src/bench.rs: the clocks of the crate return wherever a frequency that is not 0 can be read.
use native.Mathlib.Decide.{dec_lt}
use hotclock.Prelude.{ℕ, ◌≢◌, inl, inr, arith, Option-cases}
use hotclock.Word.{checked_sub, wrapping_sub}
use hotclock.Duration.{zero_duration}
use hotclock.Convert.{duration_at}
use hotclock.Target.Items.{no_clock}
use hotclock.Machine.{Machine, next_event}
use hotclock.Calibration.Spin.{ticks-eq, ticks_at_event, ticks_reader}
use hotclock.Convert.Cached.{ticks_to_duration}
use hotclock.Arch.Scale.{nanos_per_tick_q32}
use hotclock.Arch.Scale.Cache.{nanos_per_tick_q32_lem}
use hotclock.Arch.Race.Progress.{Answers}
use hotclock.Instant.{
  Instant, from_raw_ticks, now, elapsed, saturating_duration_since, duration_since,
  checked_duration_since,
}
use hotclock.Bench.Sources.{Crate, nanos_of, now_as_u64, tach_instant, tach_instant_recal}
use hotclock.Bench.Sources.Anchored.{Returns, Answering}

module _ (m : Machine) (answers : Answers m) where
  nanos_per_tick_q32-Returns : Returns (nanos_per_tick_q32 m)
  nanos_per_tick_q32-Returns w =
      let (freq, w', e, pos) = answers w in
      let (set, _, unset) = nanos_per_tick_q32_lem m w w' freq e in
      elim (dec_lt 0 w.nanos_per_tick_q32) [
        | yes full ↦ (_, _, set full)
        | no empty ↦ (_, _, unset (omega arith) pos)
      ]

  ticks_to_duration-Returns : (ticks : ℕ) → Returns (ticks_to_duration m ticks)
  unfolding ticks_to_duration
  ticks_to_duration-Returns ticks w =
      let (q, w', e) = nanos_per_tick_q32-Returns w in (duration_at q ticks, w', rw e)

  saturating-Returns : (a b : Instant) → Returns (saturating_duration_since m a b)
  unfolding saturating_duration_since duration_since checked_duration_since
  saturating-Returns a b w = elim (Option-cases (checked_sub a.raw b.raw)) [
    | inl n ↦ (zero_duration, w, rw n)
    | inr (t, n) ↦ let (d, w', e) = ticks_to_duration-Returns t w in (d, w', rw (n, e))
  ]

  module _ (clock : ticks_reader m ≢ no_clock) where
    pub now-Returns : Returns (now m)
    unfolding now
    now-Returns w =
        (from_raw_ticks (ticks_at_event m w.event), next_event w, rw (ticks-eq m w clock))

    now_as_u64-Returns : (a : Instant) → Returns (now_as_u64 m a)
    unfolding now_as_u64
    now_as_u64-Returns a w =
        let (t, w1, e1) = now-Returns w in
        let (d, w2, e2) = saturating-Returns t a w1 in (nanos_of d, w2, rw (e1, e2))

    pub elapsed-Returns : (a : Instant) → Returns (elapsed m a)
    unfolding elapsed
    elapsed-Returns a w =
        let (d, w1, e1) =
          ticks_to_duration-Returns (wrapping_sub (ticks_at_event m w.event) a.raw)
            (next_event w) in
        (d, w1, rw (ticks-eq m w clock, e1))

    first_elapsed-Returns : Returns (tach_instant_recal m).first
    unfolding tach_instant_recal
    first_elapsed-Returns w =
        let (a, w1, e1) = now-Returns w in
        let (d, w2, e2) = elapsed-Returns a w1 in (a, w2, rw (e1, e2))

    -- the clocks `tach` and `tach_recal`, against a reference clock that returns
    pub tach_instant-Answering :
        (c : Crate)
        → Returns c.now
        → Answering (tach_instant m) c × Answering (tach_instant_recal m) c
    unfolding tach_instant tach_instant_recal
    tach_instant-Answering c returns = (
      record {
        first_returns = now-Returns;
        reads_return = now_as_u64-Returns;
        reference_returns = returns;
      },
      record {
        first_returns = first_elapsed-Returns;
        reads_return = now_as_u64-Returns;
        reference_returns = returns;
      },
    )
