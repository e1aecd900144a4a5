-- ===== src/Arch/Scale.antt =====
-- src/arch/mod.rs: the cached scale NANOS_PER_TICK_Q32, its lazy start and its recalibration.
pub mod Accuracy
pub mod Cache
pub mod Effects
use hotclock.Prelude.{ℕ, ◌*◌, ◌/◌, ◌^◌, ◌==◌, ltb, Bool, true, false, if◌then◌else◌}
use hotclock.Word.{u64_saturate}
use hotclock.Target.{on_x86_direct}
use hotclock.Machine.{Machine, World, Run, ok, pure, panics, divide_by_zero, ◌>>=◌, ◌>>◌}
use hotclock.Background.{ensure_thread}
use hotclock.Calibration.{calibrate_frequency}
use hotclock.Arch.Frequency.{read_frequency}

abbrev pub nanos_per_second_q32 : ℕ
nanos_per_second_q32 = 1_000_000_000 * 2 ^ 32

-- the scale of a frequency that is not 0
unfoldable pub scale_of : ℕ → ℕ
scale_of freq = u64_saturate (nanos_per_second_q32 / freq)

abbrev pub load_scale : Run ℕ
load_scale w = ok w.nanos_per_tick_q32 w

abbrev pub store_scale : ℕ → Run (Unit {0})
store_scale scale w = ok tt (record w { nanos_per_tick_q32 = scale })

-- the division by the frequency, which panics on 0
checked_scale : ℕ → Run ℕ
checked_scale freq = if freq == 0 then panics divide_by_zero else pure (scale_of freq)

-- the part under `#[cfg(feature = "recalibrate-background")]`
start_background : Machine → Run (Unit {0})
start_background m = if m.recalibrate_background then ensure_thread m else pure tt

-- what follows a load of 0
unfoldable pub derive_scale : Machine → Run ℕ
unfolding checked_scale start_background
derive_scale m = do
  freq ← read_frequency m
  scale ← checked_scale freq
  store_scale scale
  start_background m
  pure scale

unfoldable pub nanos_per_tick_q32 : Machine → Run ℕ
nanos_per_tick_q32 m = do cached ← load_scale; if cached == 0 then derive_scale m else pure cached

recalibrate_x86 : Machine → Run (Unit {0})
recalibrate_x86 m = do
  new_hz ← calibrate_frequency m
  if ltb 0 new_hz then store_scale (scale_of new_hz) else pure tt

unfoldable pub recalibrate : Machine → Run (Unit {0})
unfolding recalibrate_x86
recalibrate m = if on_x86_direct m.target then recalibrate_x86 m else pure tt
