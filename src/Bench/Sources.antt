-- ===== src/Bench/Sources.antt =====
-- src/bench.rs, `ClockSource` and the seven clocks that implement it: nanoseconds since an anchor
-- that is taken once. The clocks of std, quanta, minstant and fastant are parameters.
pub mod Monotone
pub mod Anchored
pub mod Answering
pub mod Steady
use Prim.Native.String.{String}
use hotclock.Prelude.{ℕ, Bool, true, false, Option, none, some}
use hotclock.Word.{u64_saturate}
use hotclock.Duration.{Duration, as_nanos}
use hotclock.Target.{Target, Arch, x86_64, aarch64}
use hotclock.Machine.{Machine, Run, no_anchor, pure, panics, ◌>>=◌}
use hotclock.Instant.{Instant, now, elapsed, saturating_duration_since}
use hotclock.Instant.Ordered as Ordered

-- `u64::try_from(d.as_nanos()).unwrap_or(u64::MAX)`
abbrev pub nanos_of : Duration → ℕ
nanos_of d = u64_saturate (as_nanos d)

-- `TachInstant::now_as_u64` with the anchor in hand
unfoldable pub now_as_u64 : Machine → Instant → Run ℕ
now_as_u64 m anchor = do t ← now m; d ← saturating_duration_since m t anchor; pure (nanos_of d)

unfoldable pub ordered_now_as_u64 : Machine → Ordered.OrderedInstant → Run ℕ
ordered_now_as_u64 m anchor = do
  t ← Ordered.now m
  d ← Ordered.saturating_duration_since m t anchor
  pure (nanos_of d)

-- A clock: what `get_or_init` runs for its static anchor, and `now_as_u64` with the anchor in hand.
pub record ClockSource : Type 1 where
  pub Anchor : Type 0
  pub clock_name : String  -- `NAME`
  pub first : Run Anchor
  pub since_anchor : Anchor → Run ℕ
  pub backed_by_arch_counter : Bool

unfoldable pub tach_instant : Machine → ClockSource
tach_instant m = record {
  Anchor = Instant;
  clock_name = "tach";
  first = now m;
  since_anchor = now_as_u64 m;
  backed_by_arch_counter = true;
}

unfoldable pub tach_ordered_instant : Machine → ClockSource
tach_ordered_instant m = record {
  Anchor = Ordered.OrderedInstant;
  clock_name = "tach_ordered";
  first = Ordered.now m;
  since_anchor = ordered_now_as_u64 m;
  backed_by_arch_counter = true;
}

-- the call of `elapsed` may start the background thread
first_elapsed : Machine → Run Instant
first_elapsed m = do a ← now m; _ ← elapsed m a; pure a

unfoldable pub tach_instant_recal : Machine → ClockSource
unfolding first_elapsed
tach_instant_recal m = record {
  Anchor = Instant;
  clock_name = "tach_recal";
  first = first_elapsed m;
  since_anchor = now_as_u64 m;
  backed_by_arch_counter = true;
}

-- an `Instant` of another crate
pub record Crate : Type 1 where
  pub I : Type 0
  pub now : Run I
  pub duration_since : I → I → Duration

crate_now_as_u64 : (c : Crate) → c.I → Run ℕ
crate_now_as_u64 c anchor = do t ← c.now; pure (nanos_of (c.duration_since t anchor))

from_crate : String → Bool → Crate → ClockSource
unfolding crate_now_as_u64
from_crate name backed c = record {
  Anchor = c.I;
  clock_name = name;
  first = c.now;
  since_anchor = crate_now_as_u64 c;
  backed_by_arch_counter = backed;
}

-- the default of the trait
unfoldable pub std_instant : Crate → ClockSource
unfolding from_crate
std_instant c = from_crate "std" true c

unfoldable pub quanta_instant : Crate → ClockSource
unfolding from_crate
quanta_instant c = from_crate "quanta" true c

-- with what `minstant::is_tsc_available` returns
unfoldable pub minstant_instant : Bool → Crate → ClockSource
unfolding from_crate
minstant_instant is_tsc_available c = from_crate "minstant" is_tsc_available c

-- `cfg!(any(target_arch = "x86_64", target_arch = "aarch64"))`
is_tsc_arch : Arch → Bool
is_tsc_arch x86_64 = true
is_tsc_arch aarch64 = true
is_tsc_arch _ = false

unfoldable pub fastant_instant : Target → Crate → ClockSource
unfolding from_crate is_tsc_arch
fastant_instant t c = from_crate "fastant" (is_tsc_arch t.arch) c

-- `get_or_init` on the static anchor of a clock, with its new state
unfoldable pub init_anchor : (s : ClockSource) → Option s.Anchor → Run (Option s.Anchor)
init_anchor s none = do a ← s.first; pure (some a)
init_anchor s (some a) = pure (some a)

-- `get().expect("init_anchor first")`, then the nanoseconds since the anchor
unfoldable pub anchored_now : (s : ClockSource) → Option s.Anchor → Run ℕ
anchored_now s none = panics no_anchor
anchored_now s (some a) = s.since_anchor a

-- `reference_clock_ns` on its static anchor, with the new state of that
unfoldable pub reference_clock_ns : (c : Crate) → Option c.I → Run (Option c.I × ℕ)
reference_clock_ns c none = do a ← c.now; t ← c.now; pure (some a, nanos_of (c.duration_since t a))
reference_clock_ns c (some a) = do t ← c.now; pure (some a, nanos_of (c.duration_since t a))
