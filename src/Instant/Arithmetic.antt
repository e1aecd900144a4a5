-- ===== src/Instant/Arithmetic.antt =====
-- src/instant.rs: adding and subtracting durations.
use native.Mathlib.Decide.{dec_lt}
use hotclock.Prelude.{
  ℕ, ◌+◌, ◌-◌, ◌/◌, ◌^◌, ◌≤◌, ◌<◌, ◌≡◌, inl, inr, refl, sym, ap, subst, ◌∙◌, arith, lt→ltb,
  le→not-ltb, some, Option-cases,
}
use hotclock.Word.{u64_mod, u64_max, checked_add as add_u64}
use hotclock.Duration.{Duration, IsDuration, as_nanos}
use hotclock.Machine.{Machine, World, Outcome, ok, panic, spinning, continue, add_overflow, pure}
use hotclock.Arch.Scale.{nanos_per_tick_q32}
use hotclock.Arch.Scale.Cache.{nanos_per_tick_q32_once}
use hotclock.Convert.{duration_at, ticks_at}
use hotclock.Convert.RoundTrip.{duration_at-ticks_at}
use hotclock.Convert.Cached.{duration_to_ticks}
use hotclock.Instant.{Instant, from_raw_ticks, duration_since, add, sub, raw_after, instant, expect}
use hotclock.Instant.Laws.{duration_since_lem}

-- where a sum that is an instant comes from
record Sum (m : Machine) (w w' : World) (self t : Instant) (d : Duration) : Type 0 where
  q : ℕ
  delta : ℕ
  loaded : nanos_per_tick_q32 m w ≡ ok q w'
  converted : ticks_at q d ≡ some delta
  fits : self.raw + delta < u64_mod
  sum : t.raw ≡ self.raw + delta

expect-Sum :
    (m : Machine) (w w' : World) (self t : Instant) (d : Duration) (q : ℕ) (w₁ : World)
    → nanos_per_tick_q32 m w ≡ ok q w₁
    → expect add_overflow (instant (raw_after add_u64 self.raw (ticks_at q d))) w₁ ≡ ok t w'
    → Sum m w w' self t d
expect-Sum m w w' self t d q w₁ loaded e = elim (Option-cases (ticks_at q d)) [
  | inl failed ↦ cc (rw failed at e)
  | inr (delta, converted) ↦ elim (dec_lt (self.raw + delta) u64_mod) [
    | yes fits ↦
        let et : from_raw_ticks (self.raw + delta) ≡ t =
          cc (rw (converted, lt→ltb _ _ fits) at e) in
        let ew : w₁ ≡ w' = cc (rw (converted, lt→ltb _ _ fits) at e) in
        record {
          q = q;
          delta = delta;
          loaded = loaded ∙ ap (ok q) ew;
          converted = converted;
          fits = fits;
          sum = ap (λ (x : Instant). x.raw) (sym et);
        }
    | no over ↦ cc (rw (converted, le→not-ltb (self.raw + delta) u64_mod (omega arith)) at e)
  ]
]

continue-Sum :
    (m : Machine) (w w' : World) (self t : Instant) (d : Duration) (o : Outcome ℕ)
    → nanos_per_tick_q32 m w ≡ o
    → continue
        (continue
          (continue o (λ q. pure (ticks_at q d)))
          (λ delta. pure (instant (raw_after add_u64 self.raw delta))))
        (expect add_overflow)
      ≡ ok t w'
    → Sum m w w' self t d
continue-Sum m w w' self t d (ok q w₁) loaded e = expect-Sum m w w' self t d q w₁ loaded e
continue-Sum m w w' self t d (panic p) loaded e = cc
continue-Sum m w w' self t d spinning loaded e = cc

add-Sum :
    (m : Machine) (w w' : World) (self t : Instant) (d : Duration)
    → add m self d w ≡ ok t w'
    → Sum m w w' self t d
unfolding add duration_to_ticks
add-Sum m w w' self t d e = continue-Sum m w w' self t d (nanos_per_tick_q32 m w) refl e

scale_pos : (q : ℕ) (d : Duration) (delta : ℕ) → ticks_at q d ≡ some delta → 0 < q
unfolding ticks_at
scale_pos q d delta e = ground arith

-- Subtraction undoes addition: where `self + d` does not panic, it returns an instant that is not
-- earlier, and `(self + d) - d` is `self` again, whatever the state of the cache before the
-- addition.
pub sub-add :
    (m : Machine) (w w' : World) (self t : Instant) (d : Duration)
    → add m self d w ≡ ok t w'
    → (self.raw ≤ t.raw) × (sub m t d w' ≡ ok self w')
unfolding sub duration_to_ticks
sub-add m w w' self t d e =
    let s = add-Sum m w w' self t d e in
    let again =
      (nanos_per_tick_q32_once m w w' s.q s.loaded (scale_pos s.q d s.delta s.converted)).1 in
    let le : s.delta ≤ t.raw = omega (arith, s.sum) in
    let back : t.raw - s.delta ≡ self.raw = omega (arith, s.sum) in
    (omega (arith, s.sum), rw (again, s.converted, le→not-ltb _ _ le, back))

-- A sum lies as far ahead as its duration says: where `self + d` does not panic, for a proper `d`
-- that fits a u64 of nanoseconds and a scale that is a u64, `(self + d).duration_since(self)` is
-- never more than `d`, and less by at most one tick's worth and one nanosecond.
pub duration_since-add_self :
    (m : Machine) (w w' : World) (self t : Instant) (d : Duration)
    → IsDuration d
    → as_nanos d ≤ u64_max
    → add m self d w ≡ ok t w'
    → w'.nanos_per_tick_q32 < u64_mod
    → (r : Duration) × (duration_since m t self w' ≡ ok r w')
      × (as_nanos r ≤ as_nanos d)
      × (as_nanos d ≤ as_nanos r + w'.nanos_per_tick_q32 / 2 ^ 32 + 1)
duration_since-add_self m w w' self t d hd small e hq =
    let s = add-Sum m w w' self t d e in
    let pos = scale_pos s.q d s.delta s.converted in
    let kept : w'.nanos_per_tick_q32 ≡ s.q = (nanos_per_tick_q32_once m w w' s.q s.loaded pos).0 in
    let ahead : t.raw - self.raw ≡ s.delta = omega (arith, s.sum) in
    let q = w'.nanos_per_tick_q32 in
    let converted : ticks_at q d ≡ some s.delta =
      subst (λ q. ticks_at q d ≡ some s.delta) (sym kept) s.converted in
    let (below, above) = duration_at-ticks_at q d s.delta hq hd small converted in
    (
      duration_at q s.delta,
      (duration_since_lem m w' t self (omega (arith, kept, pos))).0
          ∙ ap (λ n. ok (duration_at q n) w') ahead,
      below,
      above,
    )
