-- ===== src/UnitTests/Arithmetic.antt =====
-- src/lib.rs: the tests that add and subtract durations.
use native.Mathlib.Nat.{lt_of_mul-lt-mul_right, add-mul, div-le_self}
use hotclock.Prelude.{
  ℕ, ◌+◌, ◌-◌, ◌*◌, ◌/◌, ◌^◌, ◌≤◌, ◌<◌, ◌≡◌, ◌≢◌, refl, sym, ap, subst, ◌∙◌, arith, true, some, leb,
  ltb, ◌&&◌, lt→ltb, le→not-ltb,
}
use hotclock.Word.{u64_mod, u64_max}
use hotclock.Duration.{Duration, IsDuration, as_nanos, from_secs, from_millis, abs_diff}
use hotclock.Target.Items.{no_clock}
use hotclock.Machine.{Machine, World, ok, panic, sub_overflow, next_event}
use hotclock.Calibration.Spin.{ticks_reader, ticks_at_event}
use hotclock.Convert.{duration_at, ticks_at}
use hotclock.Convert.Bounds.{as_nanos-duration_at, nanos_at-min, ticks_at_lem}
use hotclock.Convert.RoundTrip.{duration_at-ticks_at, quotient_bounds}
use hotclock.Convert.Cached.{duration_to_ticks}
use hotclock.Arch.Scale.Cache.{nanos_per_tick_q32_set}
use hotclock.Instant.{Instant, from_raw_ticks, add, sub, add_assign, sub_assign}
use hotclock.Instant.Laws.{duration_since_lem}
use hotclock.UnitTests.{Passes, add_duration_advances_time, sub_duration_and_add_assign}
use hotclock.UnitTests.Known.{assert_iff, now_known}

-- the ticks of a duration
abbrev pub ticks_of : ℕ → Duration → ℕ
ticks_of q d = as_nanos d * 2 ^ 32 / q

ticks_at-some :
    (q : ℕ) (d : Duration)
    → 0 < q
    → IsDuration d
    → ticks_of q d < u64_mod
    → ticks_at q d ≡ some (ticks_of q d)
ticks_at-some q d pos h fits = (ticks_at_lem q d (ticks_of q d) h).1.1 (pos, fits, refl)

module _ (m : Machine) (w : World) (pos : 0 < w.nanos_per_tick_q32) (self : Instant) (d : Duration)
    (t : ℕ) (converted : ticks_at w.nanos_per_tick_q32 d ≡ some t) where
  add_known : self.raw + t < u64_mod → add m self d w ≡ ok (from_raw_ticks (self.raw + t)) w
  unfolding add duration_to_ticks
  add_known fits = rw (nanos_per_tick_q32_set m w pos, converted, lt→ltb _ _ fits)

  sub_known : t ≤ self.raw → sub m self d w ≡ ok (from_raw_ticks (self.raw - t)) w
  unfolding sub duration_to_ticks
  sub_known le = rw (nanos_per_tick_q32_set m w pos, converted, le→not-ltb _ _ le)

close_by :
    (a b : Duration) (slack : ℕ)
    → as_nanos a ≤ as_nanos b + slack
    → as_nanos b ≤ as_nanos a + slack
    → as_nanos (abs_diff a b) ≤ slack
close_by a b slack below above = omega arith

-- the ticks of a duration below a u64 of nanoseconds, timed again
there_and_back :
    (q : ℕ) (d : Duration)
    → 0 < q
    → q < u64_mod
    → IsDuration d
    → as_nanos d ≤ u64_max
    → ticks_of q d < u64_mod
    → (as_nanos (duration_at q (ticks_of q d)) ≤ as_nanos d)
      × (as_nanos d ≤ as_nanos (duration_at q (ticks_of q d)) + q / 2 ^ 32 + 1)
there_and_back q d pos hq h small fits =
    duration_at-ticks_at q d (ticks_of q d) hq h small (ticks_at-some q d pos h fits)

ticks_of-lt : (q : ℕ) (d : Duration) → as_nanos d ≤ 1_000_000_000 → ticks_of q d < u64_mod
ticks_of-lt q d h = omega (arith, div-le_self (as_nanos d * 2 ^ 32) q)

-- a second of ticks less half a second of them, timed
half_left :
    (q s h : ℕ)
    → 0 < q
    → q < u64_mod
    → q ≤ 998 * 2 ^ 32
    → s ≡ 1_000_000_000 * 2 ^ 32 / q
    → h ≡ 500_000_000 * 2 ^ 32 / q
    → s < u64_mod
    → (h ≤ s)
      × (as_nanos (duration_at q (s - h)) ≤ 500_000_000 + 998)
      × (500_000_000 ≤ as_nanos (duration_at q (s - h)) + 999)
half_left q s h pos hq slow es eh fits =
    let whole : (s * q ≤ 1_000_000_000 * 2 ^ 32) × (1_000_000_000 * 2 ^ 32 < s * q + q) =
      subst (λ t. (t * q ≤ 1_000_000_000 * 2 ^ 32) × (1_000_000_000 * 2 ^ 32 < t * q + q)) (sym es)
        (quotient_bounds (1_000_000_000 * 2 ^ 32) q pos) in
    let part : (h * q ≤ 500_000_000 * 2 ^ 32) × (500_000_000 * 2 ^ 32 < h * q + q) =
      subst (λ t. (t * q ≤ 500_000_000 * 2 ^ 32) × (500_000_000 * 2 ^ 32 < t * q + q)) (sym eh)
        (quotient_bounds (500_000_000 * 2 ^ 32) q pos) in
    let le : h ≤ s = omega (
      arith,
      lt_of_mul-lt-mul_right q (let lt : h * q < (s + 1) * q = omega (arith, add-mul s 1 q) in lt),
    ) in
    let rest : (s - h) * q + h * q ≡ s * q =
      sym (add-mul (s - h) h q) ∙ ap (λ (t : ℕ). t * q) (omega arith) in
    (
      le,
      omega (arith, as_nanos-duration_at q (s - h), nanos_at-min q (s - h) hq (omega arith)),
      omega (arith, as_nanos-duration_at q (s - h), nanos_at-min q (s - h) hq (omega arith)),
    )

-- the assertions of the two tests, on durations that are close enough
drift_below :
    (a b : Duration) (slack limit : ℕ)
    → as_nanos a ≤ as_nanos b + slack
    → as_nanos b ≤ as_nanos a + slack
    → slack < limit
    → ltb (as_nanos (abs_diff a b)) limit ≡ true
drift_below a b slack limit below above small =
    lt→ltb _ _ (omega (arith, close_by a b slack below above))

hundred_millis :
    (n : ℕ)
    → n ≤ 100_000_000
    → 99_000_000 ≤ n
    → (leb 99 (n / 1_000_000) && leb (n / 1_000_000) 101) ≡ true
hundred_millis n below above = ground arith

module _ (m : Machine) (w : World) (clock : ticks_reader m ≢ no_clock)
    (pos : 0 < w.nanos_per_tick_q32) (slow : w.nanos_per_tick_q32 ≤ 998 * 2 ^ 32)
    (room : ticks_at_event m w.event + ticks_of w.nanos_per_tick_q32 (from_secs 1) < u64_mod) where
  abbrev q : ℕ
  q = w.nanos_per_tick_q32

  abbrev t0 : ℕ
  t0 = ticks_at_event m w.event

  pub second : ticks_at q (from_secs 1) ≡ some (ticks_of q (from_secs 1))
  second =
      ticks_at-some q (from_secs 1) pos (record { secs_fit = omega arith; below_sec = omega arith })
        (ticks_of-lt q (from_secs 1) (omega arith))

  pub forth : (s : ℕ) → t0 + s - t0 ≡ s
  forth s = omega arith

  second_back :
      (as_nanos (duration_at q (ticks_of q (from_secs 1))) ≤ as_nanos (from_secs 1))
      × (as_nanos (from_secs 1)
          ≤ as_nanos (duration_at q (ticks_of q (from_secs 1))) + q / 2 ^ 32 + 1)
  second_back =
      there_and_back q (from_secs 1) pos (omega arith)
        (record { secs_fit = omega arith; below_sec = omega arith }) (omega arith)
        (ticks_of-lt q (from_secs 1) (omega arith))

  pub second_drift :
      ltb (as_nanos (abs_diff (duration_at q (ticks_of q (from_secs 1))) (from_secs 1))) 1_000
      ≡ true
  second_drift =
      drift_below (duration_at q (ticks_of q (from_secs 1))) (from_secs 1) 999 1_000
        (omega (arith, second_back)) (omega (arith, second_back)) (omega arith)

  add_test : Passes (add_duration_advances_time m w)
  unfolding add_duration_advances_time
  add_test =
      rw
        (
          now_known m w clock,
          add_known m (next_event w) pos (from_raw_ticks t0) (from_secs 1)
              (ticks_of q (from_secs 1)) second room,
          (duration_since_lem m (next_event w) (from_raw_ticks (t0 + ticks_of q (from_secs 1)))
              (from_raw_ticks t0) pos).0,
          forth (ticks_of q (from_secs 1)),
        )
        ((assert_iff _ (next_event w)).1 second_drift)

  millis-IsDuration : (ms : ℕ) → ms ≤ 1_000 → IsDuration (from_millis ms)
  millis-IsDuration ms h = record { secs_fit = omega arith; below_sec = omega arith }

  millis : (ms : ℕ) → ms ≤ 1_000 → ticks_at q (from_millis ms) ≡ some (ticks_of q (from_millis ms))
  millis ms h =
      ticks_at-some q (from_millis ms) pos (millis-IsDuration ms h)
        (ticks_of-lt q (from_millis ms) (omega arith))

  back : (t s : ℕ) → s ≤ t → t - (t - s) ≡ s
  back t s h = omega arith

  left_over : (t a b : ℕ) → b ≤ a → t + a - b - t ≡ a - b
  left_over t a b h = omega arith

  sub_test : ticks_of q (from_millis 100) ≤ t0 → Passes (sub_duration_and_add_assign m w)
  unfolding sub_duration_and_add_assign add_assign sub_assign
  sub_test early =
      let d = ticks_of q (from_millis 100) in
      let s = ticks_of q (from_secs 1) in
      let h = ticks_of q (from_millis 500) in
      let hundred =
        there_and_back q (from_millis 100) pos (omega arith) (millis-IsDuration 100 (omega arith))
          (omega arith) (ticks_of-lt q (from_millis 100) (omega arith)) in
      let (le, below, above) =
        half_left q s h pos (omega arith) slow refl refl
          (ticks_of-lt q (from_secs 1) (omega arith)) in
      rw
        (
          now_known m w clock,
          sub_known m (next_event w) pos (from_raw_ticks t0) (from_millis 100) d
              (millis 100 (omega arith)) early,
          (duration_since_lem m (next_event w) (from_raw_ticks t0) (from_raw_ticks (t0 - d)) pos).0,
          back t0 d early,
          hundred_millis (as_nanos (duration_at q d)) (omega (arith, hundred))
              (omega (arith, hundred)),
          add_known m (next_event w) pos (from_raw_ticks t0) (from_secs 1) s second room,
          sub_known m (next_event w) pos (from_raw_ticks (t0 + s)) (from_millis 500) h
              (millis 500 (omega arith)) (omega arith),
          (duration_since_lem m (next_event w) (from_raw_ticks (t0 + s - h)) (from_raw_ticks t0)
              pos).0,
          left_over t0 s h le,
        )
        ((assert_iff _ (next_event w)).1 (
          drift_below (duration_at q (s - h)) (from_millis 500) 999 2_000 (omega arith)
            (omega arith) (omega arith)))

-- On a target that has a clock, with the scale set, at a counter of a little over 1 MHz or
-- faster (at most 998 ns a tick), and a reading from which a second can be added and 100 ms be
-- taken off: the test that adds a second finds it again to within a microsecond; and the one
-- that takes off 100 ms, and adds a second less 500 ms, finds the first to within a millisecond
-- and the rest to within two microseconds. Neither panics.
pub arithmetic_tests-Passes :
    (m : Machine) (w : World)
    → ticks_reader m ≢ no_clock
    → 0 < w.nanos_per_tick_q32
    → w.nanos_per_tick_q32 ≤ 998 * 2 ^ 32
    → ticks_at_event m w.event + ticks_of w.nanos_per_tick_q32 (from_secs 1) < u64_mod
    → ticks_of w.nanos_per_tick_q32 (from_millis 100) ≤ ticks_at_event m w.event
    → Passes (add_duration_advances_time m w) × Passes (sub_duration_and_add_assign m w)
arithmetic_tests-Passes m w clock pos slow room early =
    (add_test m w clock pos slow room, sub_test m w clock pos slow room early)

-- Where the counter stands below the ticks of 100 ms, with the scale set, the test that takes off
-- 100 ms panics in the subtraction.
pub sub_duration_and_add_assign-early :
    (m : Machine) (w : World)
    → ticks_reader m ≢ no_clock
    → 0 < w.nanos_per_tick_q32
    → ticks_at_event m w.event < ticks_of w.nanos_per_tick_q32 (from_millis 100)
    → sub_duration_and_add_assign m w ≡ panic sub_overflow
unfolding sub_duration_and_add_assign sub duration_to_ticks
sub_duration_and_add_assign-early m w clock pos early = rw (
  now_known m w clock,
  nanos_per_tick_q32_set m (next_event w) pos,
  ticks_at-some w.nanos_per_tick_q32 (from_millis 100) pos
      (record { secs_fit = omega arith; below_sec = omega arith })
      (ticks_of-lt w.nanos_per_tick_q32 (from_millis 100) (omega arith)),
  lt→ltb _ _ early,
)
