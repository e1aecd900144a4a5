-- ===== src/Bench/Sources/Monotone.antt =====
-- src/bench.rs: the clock source of `Instant` goes forward with the counter.
use hotclock.Prelude.{ℕ, ◌-◌, ◌≤◌, ◌<◌, ◌≡◌, ◌≢◌, arith, refl, subst}
use hotclock.Word.{u64_mod}
use hotclock.Duration.{as_nanos}
use hotclock.Target.Items.{no_clock}
use hotclock.Machine.{Machine, World, ok, next_event}
use hotclock.Calibration.Spin.{ticks_reader, ticks_at_event, ticks-eq}
use hotclock.Convert.{duration_at}
use hotclock.Convert.Bounds.{duration_at_lem}
use hotclock.Convert.RoundTrip.{duration_at_mono}
use hotclock.Instant.{Instant, now, duration_since, saturating_duration_since, from_raw_ticks}
use hotclock.Instant.Laws.{duration_since_lem}
use hotclock.Bench.Sources.{nanos_of, now_as_u64}

saturating-eq :
    (m : Machine) (w : World) (a b : Instant)
    → saturating_duration_since m a b w ≡ duration_since m a b w
unfolding saturating_duration_since duration_since
saturating-eq m w a b = refl

nanos_of-duration_at :
    (q t : ℕ) → q < u64_mod → t < u64_mod → nanos_of (duration_at q t) ≡ as_nanos (duration_at q t)
nanos_of-duration_at q t hq ht = ground (arith, (duration_at_lem q t hq ht).1)

pub now_as_u64_set :
    (m : Machine) (w : World) (anchor : Instant)
    → ticks_reader m ≢ no_clock
    → 0 < w.nanos_per_tick_q32
    → w.nanos_per_tick_q32 < u64_mod
    → ticks_at_event m w.event < u64_mod
    → now_as_u64 m anchor w
      ≡ ok
          (as_nanos (duration_at w.nanos_per_tick_q32 (ticks_at_event m w.event - anchor.raw)))
          (next_event w)
unfolding now_as_u64 now
now_as_u64_set m w anchor clock pos fits small =
    let q = w.nanos_per_tick_q32 in
    let t = ticks_at_event m w.event in
    rw (
      ticks-eq m w clock,
      saturating-eq m (next_event w) (from_raw_ticks t) anchor,
      (duration_since_lem m (next_event w) (from_raw_ticks t) anchor pos).0,
      nanos_of-duration_at q (t - anchor.raw) fits (omega arith),
    )

-- On a target that has a clock, and with a u64 scale set and the same at both reads, the source
-- answers at both, and the second answer is not below the first if the counter, a u64, has not
-- gone back between them.
pub now_as_u64_mono :
    (m : Machine) (v w : World) (anchor : Instant)
    → ticks_reader m ≢ no_clock
    → 0 < v.nanos_per_tick_q32
    → v.nanos_per_tick_q32 < u64_mod
    → w.nanos_per_tick_q32 ≡ v.nanos_per_tick_q32
    → ticks_at_event m v.event ≤ ticks_at_event m w.event
    → ticks_at_event m w.event < u64_mod
    → (a : ℕ) × (b : ℕ) × (now_as_u64 m anchor v ≡ ok a (next_event v))
      × (now_as_u64 m anchor w ≡ ok b (next_event w))
      × (a ≤ b)
now_as_u64_mono m v w anchor clock pos fits same forward small =
    let q = v.nanos_per_tick_q32 in
    let i = ticks_at_event m v.event - anchor.raw in
    let j = ticks_at_event m w.event - anchor.raw in
    let last : now_as_u64 m anchor w ≡ ok (as_nanos (duration_at q j)) (next_event w) =
      subst (λ s. now_as_u64 m anchor w ≡ ok (as_nanos (duration_at s j)) (next_event w)) same
        (now_as_u64_set m w anchor clock (omega arith) (omega arith) small) in
    (
      as_nanos (duration_at q i),
      as_nanos (duration_at q j),
      now_as_u64_set m v anchor clock pos fits (omega arith),
      last,
      duration_at_mono q i j fits (omega arith) (omega arith),
    )
