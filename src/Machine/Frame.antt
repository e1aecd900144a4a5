-- ===== src/Machine/Frame.antt =====
-- Runs that read the host and leave every static alone.
use hotclock.Prelude.{ℕ, ◌≡◌, refl, ap, ◌∙◌, arith, Bool, true, false, if◌then◌else◌}
use hotclock.Machine.{
  World, Outcome, ok, panic, spinning, Panic, Run, pure, panics, continue, ◌>>=◌, observe, at_event,
}

-- A run that returns has changed at most the count of reads.
pub record OnlyReads {ℓ} {A : Type ℓ} (r : Run A) : Type ℓ where
  pub at : (w : World) (a : A) (w' : World) → r w ≡ ok a w' → w' ≡ at_event w w'.event

module _ {ℓ} {A : Type ℓ} where
  pub OnlyReads-pure : (a : A) → OnlyReads (pure a)
  OnlyReads-pure a = record { at = λ w b w' e. ground arith }

  pub OnlyReads-panics : (p : Panic) → OnlyReads (panics {A = A} p)
  OnlyReads-panics p = record { at = λ w b w' e. cc }

  pub OnlyReads-observe : (read : ℕ → A) → OnlyReads (observe read)
  OnlyReads-observe read = record { at = λ w b w' e. ground arith }

  pub OnlyReads-if :
      (b : Bool) (r s : Run A) → OnlyReads r → OnlyReads s → OnlyReads (if b then r else s)
  OnlyReads-if true r s hr hs = hr
  OnlyReads-if false r s hr hs = hs

module _ {ℓ κ} {A : Type ℓ} {B : Type κ} where
  pub continue-eq_ok :
      (o : Outcome A) (f : A → Run B) (b : B) (w' : World)
      → continue o f ≡ ok b w'
      → (a : A) × (w₁ : World) × (o ≡ ok a w₁) × (f a w₁ ≡ ok b w')
  continue-eq_ok (ok a w₁) f b w' e = (a, w₁, refl, e)
  continue-eq_ok (panic p) f b w' e = cc
  continue-eq_ok spinning f b w' e = cc

  pub OnlyReads-bind :
      (r : Run A) (f : A → Run B) → OnlyReads r → ((a : A) → OnlyReads (f a)) → OnlyReads (r >>= f)
  OnlyReads-bind r f hr hf = record {
    at = λ w b w' e.
        let (a, w₁, e₁, e₂) = continue-eq_ok (r w) f b w' e in
        let p = hr.at w a w₁ e₁ in
        let q = (hf a).at w₁ b w' e₂ in q ∙ ap (λ x. at_event x w'.event) p;
  }

pub ruleset only_reads =
    (OnlyReads-pure, OnlyReads-panics, OnlyReads-observe, OnlyReads-if, OnlyReads-bind)
