-- ===== src/Instant/Laws.antt =====
-- src/instant.rs: what the methods of `Instant` promise together.
use native.Mathlib.Decide.{dec_lt}
use native.Mathlib.Nat.{mul-le-mul_right, zero-mul}
use hotclock.Prelude.{
  ℕ, ◌+◌, ◌-◌, ◌*◌, ◌^◌, ◌≤◌, ◌<◌, ◌≡◌, ◌≢◌, ◌↔◌, refl, sym, ap, subst, ◌∙◌, arith, lt→ltb,
  le→not-ltb, some, none, min,
}
use hotclock.Word.{u64_mod, u64_max, wrapping_sub}
use hotclock.Duration.{Duration, as_nanos, zero_duration}
use hotclock.Target.Items.{no_clock}
use hotclock.Machine.{
  Machine, World, Outcome, ok, panic, spinning, continue, ◌>>=◌, next_event, pure,
}
use hotclock.Arch.Scale.Cache.{nanos_per_tick_q32_set}
use hotclock.Calibration.Spin.{ticks_reader, ticks_at_event, ticks-eq}
use hotclock.Convert.{nanos_at, duration_at}
use hotclock.Convert.Bounds.{as_nanos-duration_at, nanos_at-min}
use hotclock.Convert.RoundTrip.{duration_at-add}
use hotclock.Convert.Cached.{ticks_to_duration}
use hotclock.Instant.{
  Instant, now, elapsed, duration_since, checked_duration_since, unwrap_or_default, map_duration,
}

pub ticks_to_duration-set :
    (m : Machine) (w : World) (t : ℕ)
    → 0 < w.nanos_per_tick_q32
    → ticks_to_duration m t w ≡ ok (duration_at w.nanos_per_tick_q32 t) w
unfolding ticks_to_duration
ticks_to_duration-set m w t h = rw (nanos_per_tick_q32_set m w h)

pub wrapping_sub-le : (a b : ℕ) → a < u64_mod → b ≤ a → wrapping_sub a b ≡ a - b
wrapping_sub-le a b ha h = omega arith

-- a duration that is wrapped and unwrapped
through_some :
    (o : Outcome Duration)
    → o ≡ continue (continue o (λ d. pure (some d))) (λ d. pure (unwrap_or_default d))
through_some (ok d w) = refl
through_some (panic p) = refl
through_some spinning = refl

-- On a target that has a clock, `elapsed` is `now().duration_since(self)`, lazy start, panics and
-- all, wherever the counter, a u64, has not gone below the instant.
pub elapsed-duration_since :
    (m : Machine) (w : World) (self : Instant)
    → ticks_reader m ≢ no_clock
    → ticks_at_event m w.event < u64_mod
    → self.raw ≤ ticks_at_event m w.event
    → elapsed m self w ≡ (now m >>= λ t. duration_since m t self) w
unfolding elapsed now duration_since
elapsed-duration_since m w self clock fits ahead =
    rw (ticks-eq m w clock, wrapping_sub-le _ _ fits ahead, le→not-ltb _ _ ahead)
      (through_some (ticks_to_duration m (ticks_at_event m w.event - self.raw) (next_event w)))

far_back :
    (q t : ℕ)
    → q < u64_mod
    → t < u64_mod
    → 2 ^ 63 ≤ t
    → min (2 ^ 31 * q) u64_max ≤ as_nanos (duration_at q t)
far_back q t hq ht far =
    omega (arith, as_nanos-duration_at q t, nanos_at-min q t hq ht, mul-le-mul_right q far)

-- Where the counter has gone back below the instant by no more than half its range, and the scale
-- is set, `elapsed` answers with at least `2^63` ticks, while `now().duration_since(self)` answers
-- with zero.
pub elapsed_backwards :
    (m : Machine) (w : World) (self : Instant)
    → ticks_reader m ≢ no_clock
    → self.raw < u64_mod
    → ticks_at_event m w.event < self.raw
    → self.raw ≤ ticks_at_event m w.event + 2 ^ 63
    → 0 < w.nanos_per_tick_q32
    → w.nanos_per_tick_q32 < u64_mod
    → (d : Duration) × (elapsed m self w ≡ ok d (next_event w))
      × (min (2 ^ 31 * w.nanos_per_tick_q32) u64_max ≤ as_nanos d)
      × ((now m >>= λ t. duration_since m t self) w ≡ ok zero_duration (next_event w))
unfolding elapsed now duration_since
elapsed_backwards m w self clock fits behind half pos hq =
    let q = w.nanos_per_tick_q32 in
    let t = wrapping_sub (ticks_at_event m w.event) self.raw in
    (
      duration_at q t,
      rw (ticks-eq m w clock) (ticks_to_duration-set m (next_event w) t pos),
      far_back q t hq (omega arith) (omega arith),
      rw (ticks-eq m w clock, lt→ltb _ _ behind),
    )

pub duration_at-no_ticks : (q : ℕ) → duration_at q 0 ≡ zero_duration
unfolding duration_at nanos_at
duration_at-no_ticks q = rw zero-mul

map_duration-set :
    (m : Machine) (w : World) (t : ℕ)
    → 0 < w.nanos_per_tick_q32
    → map_duration m (some t) w ≡ ok (some (duration_at w.nanos_per_tick_q32 t)) w
map_duration-set m w t pos = rw (ticks_to_duration-set m w t pos)

-- With the scale set, `a.duration_since(b)` is the duration of the ticks from `b` to `a`, and zero
-- where `b` is the later; `a.checked_duration_since(b)` is `none` exactly where `b` is the later,
-- and the same duration everywhere else; neither changes a static or reads the host.
pub duration_since_lem :
    (m : Machine) (w : World) (a b : Instant)
    → 0 < w.nanos_per_tick_q32
    → (duration_since m a b w ≡ ok (duration_at w.nanos_per_tick_q32 (a.raw - b.raw)) w)
      × ((checked_duration_since m a b w ≡ ok none w) ↔ (a.raw < b.raw))
      × ((checked_duration_since m a b w
            ≡ ok (some (duration_at w.nanos_per_tick_q32 (a.raw - b.raw))) w)
          ↔ (b.raw ≤ a.raw))
unfolding duration_since checked_duration_since
duration_since_lem m w a b pos = elim (dec_lt a.raw b.raw) [
  | yes later ↦
      let e : a.raw - b.raw ≡ 0 = omega arith in
      (
        rw (lt→ltb _ _ later, e)
            (ap (λ d. ok d w) (sym (duration_at-no_ticks w.nanos_per_tick_q32))),
        (λ _. later, λ _. rw (lt→ltb _ _ later)),
        (λ h. cc (rw (lt→ltb _ _ later) at h), λ le. absurd (omega arith)),
      )
  | no earlier ↦
      let le : b.raw ≤ a.raw = omega arith in
      let got : checked_duration_since m a b w
          ≡ ok (some (duration_at w.nanos_per_tick_q32 (a.raw - b.raw))) w =
        rw (le→not-ltb _ _ le) (map_duration-set m w (a.raw - b.raw) pos) in
      (
        ap (λ o. continue o (λ d. pure (unwrap_or_default d))) got,
        (λ h. cc (sym got ∙ h), λ lt. absurd (omega arith)),
        (λ _. le, λ _. got),
      )
]

-- Of three instants in order, with a u64 scale set and the whole below `u64::MAX` nanoseconds, the
-- durations of the two parts add up to that of the whole, or to one nanosecond less.
pub duration_since-add :
    (m : Machine) (w : World) (a b c : Instant) (ab bc ac : Duration)
    → 0 < w.nanos_per_tick_q32
    → w.nanos_per_tick_q32 < u64_mod
    → a.raw ≤ b.raw
    → b.raw ≤ c.raw
    → c.raw < u64_mod
    → duration_since m b a w ≡ ok ab w
    → duration_since m c b w ≡ ok bc w
    → duration_since m c a w ≡ ok ac w
    → as_nanos ac < u64_max
    → (as_nanos ab + as_nanos bc ≤ as_nanos ac) × (as_nanos ac ≤ as_nanos ab + as_nanos bc + 1)
duration_since-add m w a b c ab bc ac pos hq hab hbc hc eab ebc eac small =
    let q = w.nanos_per_tick_q32 in
    let dab : ab ≡ duration_at q (b.raw - a.raw) =
      cc (sym eab ∙ (duration_since_lem m w b a pos).0) in
    let dbc : bc ≡ duration_at q (c.raw - b.raw) =
      cc (sym ebc ∙ (duration_since_lem m w c b pos).0) in
    let dac : ac ≡ duration_at q (c.raw - a.raw) =
      cc (sym eac ∙ (duration_since_lem m w c a pos).0) in
    let split : (c.raw - a.raw) ≡ (b.raw - a.raw) + (c.raw - b.raw) = omega arith in
    let whole : ac ≡ duration_at q ((b.raw - a.raw) + (c.raw - b.raw)) =
      dac ∙ ap (duration_at q) split in
    rw (dab, dbc, whole)
      (duration_at-add q (b.raw - a.raw) (c.raw - b.raw) hq (omega arith)
        (subst (λ d. as_nanos d < u64_max) whole small))
