-- ===== src/Arch/Scale/Effects.antt =====
-- src/arch/mod.rs: what a load of the scale and a recalibration can do to the statics.
use native.Mathlib.Decide.{dec_lt}
use hotclock.Prelude.{ℕ, ◌<◌, ◌≡◌, ◌⊎◌, inl, inr, sym, ap, ◌∙◌, arith, true, false, Bool-cases}
use hotclock.Target.{on_x86_direct}
use hotclock.Machine.{Machine, World, ok, at_event}
use hotclock.Machine.Frame.{continue-eq_ok}
use hotclock.Calibration.{calibrate_frequency}
use hotclock.Calibration.Frame.{calibrate_frequency-OnlyReads}
use hotclock.Arch.Frequency.Frame.{read_frequency-OnlyReads}
use hotclock.Arch.Scale.{nanos_per_tick_q32, recalibrate, recalibrate_x86, scale_of}
use hotclock.Arch.Scale.Cache.{
  started, stored, derive_scale-eq_ok, nanos_per_tick_q32_set, nanos_per_tick_q32_unset,
  recalibrate_x86_lem,
}

recalibrate_on :
    (m : Machine) (w : World)
    → on_x86_direct m.target ≡ true
    → recalibrate m w ≡ recalibrate_x86 m w
unfolding recalibrate
recalibrate_on m w direct = rw direct

recalibrate_off :
    (m : Machine) (w : World) → on_x86_direct m.target ≡ false → recalibrate m w ≡ ok tt w
unfolding recalibrate
recalibrate_off m w off = rw off

-- A load leaves the world as it is, or is the lazy start on an unset cache.
pub load_effect :
    (m : Machine) (w w' : World) (q : ℕ)
    → nanos_per_tick_q32 m w ≡ ok q w'
    → ((0 < w.nanos_per_tick_q32) × (w' ≡ w))
      ⊎ ((w.nanos_per_tick_q32 ≡ 0) × (k : ℕ) × (w' ≡ started m (stored q (at_event w k))))
load_effect m w w' q e = elim (dec_lt 0 w.nanos_per_tick_q32) [
  | yes pos ↦ inl (pos, cc (sym (nanos_per_tick_q32_set m w pos) ∙ e))
  | no not_pos ↦
      let unset : w.nanos_per_tick_q32 ≡ 0 = omega arith in
      let (freq, w₁, e₁, _, eq, ew) =
        derive_scale-eq_ok m w w' q (sym (nanos_per_tick_q32_unset m w unset) ∙ e) in
      let moved = (read_frequency-OnlyReads m).at w freq w₁ e₁ in
      inr (
        unset,
        w₁.event,
        ew
            ∙ ap (λ x. started m (stored (scale_of freq) x)) moved
            ∙ ap (λ x. started m (stored x (at_event w w₁.event))) (sym eq),
      )
]

-- `recalibrate` moves the count of reads, and may store the scale of a measured frequency other
-- than 0.
pub recalibrate_effect :
    (m : Machine) (w w' : World)
    → recalibrate m w ≡ ok tt w'
    → ((k : ℕ) × (w' ≡ at_event w k))
      ⊎ ((k hz : ℕ) × (calibrate_frequency m w ≡ ok hz (at_event w k))
          × (0 < hz)
          × (w' ≡ stored (scale_of hz) (at_event w k)))
unfolding recalibrate_x86
recalibrate_effect m w w' e = elim (Bool-cases (on_x86_direct m.target)) [
  | inl direct ↦
      let (hz, w₁, e₁, _) =
        continue-eq_ok (calibrate_frequency m w) _ tt w' (sym (recalibrate_on m w direct) ∙ e) in
      let moved = (calibrate_frequency-OnlyReads m).at w hz w₁ e₁ in
      let (skip, store) = recalibrate_x86_lem m w w₁ hz direct e₁ in
      elim (dec_lt 0 hz) [
        | yes pos ↦
            let at_hz : calibrate_frequency m w ≡ ok hz (at_event w w₁.event) =
              e₁ ∙ ap (ok hz) moved in
            let e₂ : w' ≡ stored (scale_of hz) w₁ = cc (sym (store pos) ∙ e) in
            inr (w₁.event, hz, at_hz, pos, e₂ ∙ ap (stored (scale_of hz)) moved)
        | no none ↦
            let e₂ : w' ≡ w₁ = cc (sym (skip (omega arith)) ∙ e) in inl (w₁.event, e₂ ∙ moved)
      ]
  | inr off ↦ inl (w.event, cc (sym (recalibrate_off m w off) ∙ e))
]
