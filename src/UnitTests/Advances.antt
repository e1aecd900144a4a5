-- ===== src/UnitTests/Advances.antt =====
-- src/lib.rs: `now_advances` and `ordered_now_advances`.
use hotclock.Prelude.{ℕ, zero, suc, ◌+◌, ◌≤◌, ◌≡◌, ◌≢◌, ◌↔◌, arith, leb, true}
use hotclock.Target.Items.{no_clock}
use hotclock.Machine.{Machine, World, next_event}
use hotclock.Calibration.Spin.{ticks_reader, ticks_at_event}
use hotclock.Arch.Counter.Agreement.{SplitsTsc}
use hotclock.Instant.{from_raw_ticks}
use hotclock.UnitTests.{Passes, advances, now_advances, ordered_advances, ordered_now_advances}
use hotclock.UnitTests.Known.{assert-then, now_known, ordered_now_known}

-- none of the next reads, from number `e` on, is below the one before, the first not below `t`
abbrev pub Rises : (ℕ → ℕ) → ℕ → ℕ → ℕ → Type 0
Rises ticks t e zero = Unit {0}
Rises ticks t e (suc n) = (t ≤ ticks e) × Rises ticks (ticks e) (e + 1) n

leb_iff : (a b : ℕ) → (leb a b ≡ true) ↔ (a ≤ b)
leb_iff a b = ground arith

pair_iff {ℓ ℓ' κ κ'} :
    {A : Type ℓ} {B : Type ℓ'} {C : Type κ} {D : Type κ'} → A ↔ B → C ↔ D → (A × C) ↔ (B × D)
pair_iff p q = (λ h. (p.0 h.0, q.0 h.1), λ h. (p.1 h.0, q.1 h.1))

pub iff_trans {ℓ κ μ} : {A : Type ℓ} {B : Type κ} {C : Type μ} → A ↔ B → B ↔ C → A ↔ C
iff_trans p q = (λ a. q.0 (p.0 a), λ c. p.1 (q.1 c))

module _ (m : Machine) (clock : ticks_reader m ≢ no_clock) where
  advances_iff :
      (n : ℕ) (t : ℕ) (w : World)
      → Passes (advances m n (from_raw_ticks t) w) ↔ Rises (ticks_at_event m) t w.event n
  unfolding advances
  advances_iff zero t w = (λ h. h, λ h. h)
  advances_iff (suc n) t w = rw (now_known m w clock) (
      iff_trans (assert-then (leb t (ticks_at_event m w.event)) (next_event w) _) (
        pair_iff (leb_iff t (ticks_at_event m w.event))
          (advances_iff n (ticks_at_event m w.event) (next_event w))))

  ordered_advances_iff :
      (n : ℕ) (t : ℕ) (w : World)
      → SplitsTsc m.host
      → Passes (ordered_advances m n (record { raw = t }) w) ↔ Rises (ticks_at_event m) t w.event n
  unfolding ordered_advances
  ordered_advances_iff zero t w s = (λ h. h, λ h. h)
  ordered_advances_iff (suc n) t w s = rw (ordered_now_known m w clock s) (
      iff_trans (assert-then (leb t (ticks_at_event m w.event)) (next_event w) _) (
        pair_iff (leb_iff t (ticks_at_event m w.event))
          (ordered_advances_iff n (ticks_at_event m w.event) (next_event w) s)))

-- On a target that has a clock, for any number of rounds: `now_advances` passes exactly if none of
-- its reads of the counter is below the one before; and so does `ordered_now_advances`, where the
-- two halves of the TSC are those of its intrinsic.
pub now_advances_iff :
    (m : Machine) (w : World) (rounds : ℕ)
    → ticks_reader m ≢ no_clock
    → SplitsTsc m.host
    → (Passes (now_advances rounds m w)
        ↔ Rises (ticks_at_event m) (ticks_at_event m w.event) (w.event + 1) rounds)
      × (Passes (ordered_now_advances rounds m w)
          ↔ Rises (ticks_at_event m) (ticks_at_event m w.event) (w.event + 1) rounds)
unfolding now_advances ordered_now_advances
now_advances_iff m w rounds clock s = (
  rw (now_known m w clock) (advances_iff m clock rounds (ticks_at_event m w.event) (next_event w)),
  rw (ordered_now_known m w clock s)
      (ordered_advances_iff m clock rounds (ticks_at_event m w.event) (next_event w) s),
)
