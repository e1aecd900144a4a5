-- ===== src/Examples/InstantExamples.antt =====
-- The laws of the two instants on the machines of `Hosts`.
use hotclock.Prelude.{ℕ, ◌*◌, ◌^◌, ◌≤◌, ◌≡◌, ◌≢◌, refl, arith, min}
use hotclock.Word.{u64_max}
use hotclock.Duration.{Duration, as_nanos, from_secs, zero_duration}
use hotclock.Convert.{ticks_at}
use hotclock.Convert.Cached.{duration_to_ticks}
use hotclock.Target.Items.{no_clock, ticks_items}
use hotclock.Machine.{ok, ◌>>=◌}
use hotclock.Arch.X86_64
use hotclock.Arch.Counter.{counter_value}
use hotclock.Arch.Counter.Agreement.{SplitsTsc}
use hotclock.Arch.Scale.{nanos_per_tick_q32}
use hotclock.Calibration.Spin.{ticks_reader}
use hotclock.Instant.{
  Instant, from_raw_ticks, now, elapsed, duration_since, checked_duration_since, add, sub,
  sub_instant, checked_add, checked_sub,
}
use hotclock.Instant
use hotclock.Instant.Laws.{elapsed-duration_since, elapsed_backwards}
use hotclock.Instant.Arithmetic.{sub-add}
use hotclock.Instant.Ordered.{OrderedInstant, as_unordered}
use hotclock.Instant.Ordered
use hotclock.Instant.Ordered.Mirror.{unordered, mapped, as_unordered_mirror}
use hotclock.Examples.Hosts.{nominal, world}

abbrev scale : ℕ
scale = 1431655765

nominal_has_clock : ticks_reader nominal ≢ no_clock
unfolding ticks_items
nominal_has_clock e = cc e

elapsed-duration_since_example :
    elapsed nominal (from_raw_ticks 15_000_000) (world 3 0)
    ≡ (now nominal >>= λ t. duration_since nominal t (from_raw_ticks 15_000_000)) (world 3 0)
unfolding counter_value ticks_items X86_64.rdtsc
elapsed-duration_since_example =
    elapsed-duration_since nominal (world 3 0) (from_raw_ticks 15_000_000) nominal_has_clock
      (omega arith) (omega arith)

-- the other core is 100 ticks ahead
elapsed_backwards_example :
    (d : Duration) × (elapsed nominal (from_raw_ticks 45_000_100) (world 3 scale)
      ≡ ok d (world 4 scale))
    × (min (2 ^ 31 * scale) u64_max ≤ as_nanos d)
    × ((now nominal >>= λ t. duration_since nominal t (from_raw_ticks 45_000_100)) (world 3 scale)
        ≡ ok zero_duration (world 4 scale))
unfolding counter_value ticks_items X86_64.rdtsc
elapsed_backwards_example =
    elapsed_backwards nominal (world 3 scale) (from_raw_ticks 45_000_100) nominal_has_clock
      (omega arith) (omega arith) (omega arith) (omega arith) (omega arith)

abbrev nanoseconds : ℕ → Duration
nanoseconds n = record { secs = 0; nanos = n }

later :
    add nominal (from_raw_ticks 7) (from_secs 2) (world 0 scale)
    ≡ ok (from_raw_ticks 6_000_000_008) (world 0 scale)
unfolding add duration_to_ticks nanos_per_tick_q32 ticks_at
later = refl

sub-add_example :
    (7 ≤ 6_000_000_008)
    × (sub nominal (from_raw_ticks 6_000_000_008) (from_secs 2) (world 0 scale)
        ≡ ok (from_raw_ticks 7) (world 0 scale))
sub-add_example =
    sub-add nominal (world 0 scale) (world 0 scale) (from_raw_ticks 7)
      (from_raw_ticks 6_000_000_008) (from_secs 2) later

abbrev ordered_at : ℕ → OrderedInstant
ordered_at t = record { raw = t }

nominal_splits : SplitsTsc nominal.host
nominal_splits = record {
  hi_fits = λ k. omega arith;
  lo_fits = λ k. omega arith;
  whole = λ k. omega arith;
}

as_unordered_mirror_example :
    let m = nominal in
    let w = world 0 0 in
    let self = ordered_at 90 in
    let other = ordered_at 30 in
    let d = from_secs 2 in
    let plain = as_unordered self in
    let plain_other = as_unordered other in
    (mapped as_unordered (Ordered.now m w) ≡ Instant.now m w)
    × (Ordered.elapsed m self w ≡ Instant.elapsed m plain w)
    × (Ordered.elapsed_unordered m self w ≡ Instant.elapsed m plain w)
    × (Ordered.checked_duration_since m self other w
        ≡ Instant.checked_duration_since m plain plain_other w)
    × (Ordered.duration_since m self other w ≡ Instant.duration_since m plain plain_other w)
    × (Ordered.saturating_duration_since m self other w
        ≡ Instant.saturating_duration_since m plain plain_other w)
    × (Ordered.sub_instant m self other w ≡ Instant.sub_instant m plain plain_other w)
    × (mapped unordered (Ordered.checked_add m self d w) ≡ Instant.checked_add m plain d w)
    × (mapped unordered (Ordered.checked_sub m self d w) ≡ Instant.checked_sub m plain d w)
    × (mapped as_unordered (Ordered.add m self d w) ≡ Instant.add m plain d w)
    × (mapped as_unordered (Ordered.add_assign m self d w) ≡ Instant.add_assign m plain d w)
    × (mapped as_unordered (Ordered.sub m self d w) ≡ Instant.sub m plain d w)
    × (mapped as_unordered (Ordered.sub_assign m self d w) ≡ Instant.sub_assign m plain d w)
as_unordered_mirror_example =
    as_unordered_mirror nominal (world 0 0) (ordered_at 90) (ordered_at 30) (from_secs 2)
      nominal_splits
