-- ===== src/Instant/Ordered/Mirror.antt =====
-- src/instant.rs: `OrderedInstant` is `Instant` read behind a barrier, and nothing else.
use hotclock.Prelude.{ℕ, Option, none, some, ◌≡◌, refl, ap, ◌∙◌}
use hotclock.Word.{checked_sub as sub_u64, checked_add as add_u64, wrapping_sub}
use hotclock.Duration.{Duration}
use hotclock.Machine.{
  Machine, World, Outcome, ok, panic, spinning, Panic, continue, pure, add_overflow, sub_overflow,
}
use hotclock.Convert.Cached.{duration_to_ticks, ticks_to_duration}
use hotclock.Arch.Counter.{ticks_ordered}
use hotclock.Arch.Counter.Agreement.{SplitsTsc, ticks_ordered-ticks}
use hotclock.Instant
use hotclock.Instant.{from_raw_ticks, raw_after}
use hotclock.Instant.Ordered.{
  OrderedInstant, elapsed_unordered, as_unordered, checked_duration_since, checked_add, checked_sub,
  add, sub, sub_instant, ordered, expect, now, elapsed, duration_since, saturating_duration_since,
  add_assign, sub_assign,
}

-- `as_unordered` under a result
abbrev pub unordered : Option OrderedInstant → Option Instant.Instant
unordered none = none
unordered (some t) = some (as_unordered t)

-- a run with its result turned by a function
abbrev pub mapped {ℓ κ} : {A : Type ℓ} {B : Type κ} → (A → B) → Outcome A → Outcome B
mapped f (ok a w) = ok (f a) w
mapped f (panic p) = panic p
mapped f spinning = spinning

ordered-instant : (o : Option ℕ) → unordered (ordered o) ≡ Instant.instant o
unfolding as_unordered
ordered-instant none = refl
ordered-instant (some t) = refl

module _ (op : ℕ → ℕ → Option ℕ) (raw : ℕ) where
  -- the two ways to finish `checked_add` or `checked_sub`
  checked_mirror :
      (o : Outcome (Option ℕ))
      → mapped unordered (continue o (λ delta. pure (ordered (raw_after op raw delta))))
        ≡ continue o (λ delta. pure (Instant.instant (raw_after op raw delta)))
  checked_mirror (ok delta w) = ap (λ x. ok x w) (ordered-instant (raw_after op raw delta))
  checked_mirror (panic p) = refl
  checked_mirror spinning = refl

expected :
    (p : Panic) (o : Option ℕ) (w : World)
    → mapped as_unordered (expect p (ordered o) w) ≡ Instant.expect p (Instant.instant o) w
unfolding as_unordered
expected p none w = refl
expected p (some t) w = refl

module _ (p : Panic) (op : ℕ → ℕ → Option ℕ) (raw : ℕ) where
  -- the two ways to finish `add` or `sub`
  expect_mirror :
      (o : Outcome (Option ℕ))
      → mapped as_unordered
          (continue (continue o (λ delta. pure (ordered (raw_after op raw delta)))) (expect p))
        ≡ continue
            (continue o (λ delta. pure (Instant.instant (raw_after op raw delta))))
            (Instant.expect p)
  expect_mirror (ok delta w) = expected p (raw_after op raw delta) w
  expect_mirror (panic q) = refl
  expect_mirror spinning = refl

-- the two ways to finish `now`
now_mirror :
    (o : Outcome ℕ)
    → mapped as_unordered (continue o (λ t. pure (record { raw = t })))
      ≡ continue o (λ t. pure (from_raw_ticks t))
unfolding as_unordered
now_mirror (ok t w) = refl
now_mirror (panic p) = refl
now_mirror spinning = refl

-- Where the instruction `rdtsc` splits the counter as documented, forgetting the order commutes
-- with every method and operator of `OrderedInstant`: on the plain instants of the same ticks each
-- gives the same result, panic and change of the statics, the ordered read of `now` and `elapsed`
-- included. `elapsed_unordered` is `elapsed` of the plain instant.
pub as_unordered_mirror :
    (m : Machine) (w : World) (self other : OrderedInstant) (d : Duration)
    → SplitsTsc m.host
    → let plain = as_unordered self in
      let plain_other = as_unordered other in
      (mapped as_unordered (now m w) ≡ Instant.now m w)
      × (elapsed m self w ≡ Instant.elapsed m plain w)
      × (elapsed_unordered m self w ≡ Instant.elapsed m plain w)
      × (checked_duration_since m self other w
          ≡ Instant.checked_duration_since m plain plain_other w)
      × (duration_since m self other w ≡ Instant.duration_since m plain plain_other w)
      × (saturating_duration_since m self other w
          ≡ Instant.saturating_duration_since m plain plain_other w)
      × (sub_instant m self other w ≡ Instant.sub_instant m plain plain_other w)
      × (mapped unordered (checked_add m self d w) ≡ Instant.checked_add m plain d w)
      × (mapped unordered (checked_sub m self d w) ≡ Instant.checked_sub m plain d w)
      × (mapped as_unordered (add m self d w) ≡ Instant.add m plain d w)
      × (mapped as_unordered (add_assign m self d w) ≡ Instant.add_assign m plain d w)
      × (mapped as_unordered (sub m self d w) ≡ Instant.sub m plain d w)
      × (mapped as_unordered (sub_assign m self d w) ≡ Instant.sub_assign m plain d w)
unfolding as_unordered now elapsed elapsed_unordered duration_since saturating_duration_since
    sub_instant checked_add checked_sub add add_assign sub sub_assign Instant.now Instant.elapsed
    Instant.duration_since Instant.saturating_duration_since Instant.sub_instant Instant.checked_add
    Instant.checked_sub Instant.add Instant.add_assign Instant.sub Instant.sub_assign
as_unordered_mirror m w self other d splits =
    let same = ticks_ordered-ticks m w splits in
    let since = λ (t : ℕ). ticks_to_duration m (wrapping_sub t self.raw) in
    let o = duration_to_ticks m d w in
    let sum = expect_mirror add_overflow add_u64 self.raw o in
    let difference = expect_mirror sub_overflow sub_u64 self.raw o in
    (
      now_mirror (ticks_ordered m w)
          ∙ ap (λ r. continue r (λ (t : ℕ). pure (from_raw_ticks t))) same,
      ap (λ r. continue r since) same,
      refl,
      refl,
      refl,
      refl,
      refl,
      checked_mirror add_u64 self.raw o,
      checked_mirror sub_u64 self.raw o,
      sum,
      sum,
      difference,
      difference,
    )
