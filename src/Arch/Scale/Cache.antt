-- ===== src/Arch/Scale/Cache.antt =====
-- src/arch/mod.rs: the cache NANOS_PER_TICK_Q32 over its life: the lazy start, its later loads, and
-- `recalibrate`.
use native.Mathlib.Decide.{dec_lt}
use hotclock.Prelude.{
  ℕ, ◌<◌, ◌≡◌, ap, sym, subst, ◌∙◌, ==_iff, arith, true, Bool-cases, inl, inr, pos→not-zero,
  if◌then◌else◌,
}
use hotclock.Target.{on_x86_direct}
use hotclock.Target.Items.{read_frequency_items, frequency_item, calibrated}
use hotclock.Machine.{Machine, World, ok, panic, divide_by_zero}
use hotclock.Machine.Frame.{continue-eq_ok}
use hotclock.Background.{ensured, ensure_thread}
use hotclock.Calibration.{calibrate_frequency}
use hotclock.Arch.Frequency.{read_frequency}
use hotclock.Arch.Scale.{scale_of, nanos_per_tick_q32, start_background, recalibrate, derive_scale}

-- the world after the feature's part of the lazy start
unfoldable pub started : Machine → World → World
started m w = if m.recalibrate_background then ensured m w else w

start_background-eq : (m : Machine) (w : World) → start_background m w ≡ ok tt (started m w)
unfolding start_background started ensure_thread
start_background-eq m w = elim (Bool-cases m.recalibrate_background) [
  | inl on ↦ rw on
  | inr off ↦ rw off
]

pub started-keeps :
    (m : Machine) (w : World)
    → ((started m w).nanos_per_tick_q32 ≡ w.nanos_per_tick_q32)
      × ((started m w).interval_secs ≡ w.interval_secs)
      × ((started m w).event ≡ w.event)
unfolding started ensured
started-keeps m w = ground arith

-- A set cache is returned, and nothing else happens.
pub nanos_per_tick_q32_set :
    (m : Machine) (w : World)
    → 0 < w.nanos_per_tick_q32
    → nanos_per_tick_q32 m w ≡ ok w.nanos_per_tick_q32 w
unfolding nanos_per_tick_q32
nanos_per_tick_q32_set m w h = rw (pos→not-zero _ h)

derive_scale-zero :
    (m : Machine) (w w₁ : World)
    → read_frequency m w ≡ ok 0 w₁
    → derive_scale m w ≡ panic divide_by_zero
unfolding derive_scale
derive_scale-zero m w w₁ e = rw e

abbrev pub stored : ℕ → World → World
stored scale w = record w { nanos_per_tick_q32 = scale }

pub derive_scale-pos :
    (m : Machine) (w w₁ : World) (freq : ℕ)
    → read_frequency m w ≡ ok freq w₁
    → 0 < freq
    → derive_scale m w ≡ ok (scale_of freq) (started m (stored (scale_of freq) w₁))
unfolding derive_scale
derive_scale-pos m w w₁ freq e pos =
    rw (e, pos→not-zero freq pos, start_background-eq m (stored (scale_of freq) w₁))

pub nanos_per_tick_q32_unset :
    (m : Machine) (w : World) → w.nanos_per_tick_q32 ≡ 0 → nanos_per_tick_q32 m w ≡ derive_scale m w
unfolding nanos_per_tick_q32
nanos_per_tick_q32_unset m w unset = rw ((==_iff w.nanos_per_tick_q32 0).1 unset)

-- where a lazy start that returns comes from
pub derive_scale-eq_ok :
    (m : Machine) (w w' : World) (q : ℕ)
    → derive_scale m w ≡ ok q w'
    → (freq : ℕ) × (w₁ : World) × (read_frequency m w ≡ ok freq w₁)
      × (0 < freq)
      × (q ≡ scale_of freq)
      × (w' ≡ started m (stored (scale_of freq) w₁))
unfolding derive_scale
derive_scale-eq_ok m w w' q e =
    let (freq, w₁, e₁, _) = continue-eq_ok (read_frequency m w) _ q w' e in
    elim (dec_lt 0 freq) [
      | yes pos ↦
          let done = sym (derive_scale-pos m w w₁ freq e₁ pos) ∙ e in (freq, w₁, e₁, pos, cc, cc)
      | no not_pos ↦
          let is_zero : freq ≡ 0 = omega arith in
          cc (
            sym (derive_scale-zero m w w₁ (subst (λ f. read_frequency m w ≡ ok f w₁) is_zero e₁))
            ∙ e)
    ]

nanos_per_tick_q32-keeps :
    (m : Machine) (w w' : World) (q : ℕ)
    → nanos_per_tick_q32 m w ≡ ok q w'
    → w'.nanos_per_tick_q32 ≡ q
nanos_per_tick_q32-keeps m w w' q e = elim (dec_lt 0 w.nanos_per_tick_q32) [
  | yes pos ↦ cc (sym (nanos_per_tick_q32_set m w pos) ∙ e)
  | no not_pos ↦
      let (freq, w₁, _, _, eq, ew) =
        derive_scale-eq_ok m w w' q (sym (nanos_per_tick_q32_unset m w (omega arith)) ∙ e) in
      ap (λ (x : World). x.nanos_per_tick_q32) ew
      ∙ (started-keeps m (stored (scale_of freq) w₁)).0
      ∙ sym eq
]

-- the branches of a load, where reading the frequency returns `freq`
pub nanos_per_tick_q32_lem :
    (m : Machine) (w w₁ : World) (freq : ℕ)
    → read_frequency m w ≡ ok freq w₁
    → (0 < w.nanos_per_tick_q32 → nanos_per_tick_q32 m w ≡ ok w.nanos_per_tick_q32 w)
      × (w.nanos_per_tick_q32 ≡ 0 → freq ≡ 0 → nanos_per_tick_q32 m w ≡ panic divide_by_zero)
      × (w.nanos_per_tick_q32 ≡ 0
          → 0 < freq
          → nanos_per_tick_q32 m w ≡ ok (scale_of freq) (started m (stored (scale_of freq) w₁)))
nanos_per_tick_q32_lem m w w₁ freq e = (
  nanos_per_tick_q32_set m w,
  λ unset none_read.
      nanos_per_tick_q32_unset m w unset
      ∙ derive_scale-zero m w w₁ (subst (λ f. read_frequency m w ≡ ok f w₁) none_read e),
  λ unset pos. nanos_per_tick_q32_unset m w unset ∙ derive_scale-pos m w w₁ freq e pos,
)

-- Once a load has returned a scale other than 0, the cache holds that scale, and the next load
-- returns it again and reads nothing: the frequency is derived once.
pub nanos_per_tick_q32_once :
    (m : Machine) (w w' : World) (q : ℕ)
    → nanos_per_tick_q32 m w ≡ ok q w'
    → 0 < q
    → (w'.nanos_per_tick_q32 ≡ q) × (nanos_per_tick_q32 m w' ≡ ok q w')
nanos_per_tick_q32_once m w w' q e pos =
    let kept = nanos_per_tick_q32-keeps m w w' q e in
    (kept, nanos_per_tick_q32_set m w' (subst (λ n. 0 < n) (sym kept) pos) ∙ ap (λ n. ok n w') kept)

-- `recalibrate` does nothing at all on every target whose only source of the frequency is the
-- calibration.
pub recalibrate_skips :
    (m : Machine) (w : World)
    → frequency_item (read_frequency_items m.target) ≡ calibrated
    → recalibrate m w ≡ ok tt w
unfolding recalibrate read_frequency_items
recalibrate_skips m w e = ground arith

-- On x86 and x86_64 outside macOS and Windows `recalibrate` measures the frequency whatever CPUID
-- says: a measured frequency other than 0 replaces the cached scale by its own, and 0 leaves the
-- cache as it is.
pub recalibrate_x86_lem :
    (m : Machine) (w w₁ : World) (hz : ℕ)
    → on_x86_direct m.target ≡ true
    → calibrate_frequency m w ≡ ok hz w₁
    → (hz ≡ 0 → recalibrate m w ≡ ok tt w₁)
      × (0 < hz → recalibrate m w ≡ ok tt (stored (scale_of hz) w₁))
unfolding recalibrate
recalibrate_x86_lem m w w₁ hz direct e = (λ z. ground arith, λ pos. ground arith)
