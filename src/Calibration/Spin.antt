-- ===== src/Calibration/Spin.antt =====
-- src/calibration.rs: the spin loop ends, and which reads of the host a sample rests on.
use hotclock.Prelude.{
  ℕ, zero, suc, ◌+◌, ◌≤◌, ◌<◌, ◌≡◌, ◌≢◌, refl, ap, subst, arith, All, inl, inr, Bool-cases, List,
  [], ◌∷◌, ltb, ltb→lt, not-ltb→le, length,
}
use hotclock.Word.{wrapping_sub}
use hotclock.Target.Items.{Reader, no_clock, ticks_items, reader}
use hotclock.Machine.{Machine, World, ok, next_event, at_event}
use hotclock.Arch.Fallback
use hotclock.Arch.Counter.{counter_value, ticks}
use hotclock.Calibration.{calibration_time_ns, spin_until, estimate, sample, samples}

abbrev pub ticks_reader : Machine → Reader
ticks_reader m = reader (ticks_items m.target)

-- the two timelines, by the number of the read
abbrev pub clock_at : Machine → ℕ → ℕ
clock_at m k = Fallback.clock_monotonic m.host k

abbrev pub ticks_at_event : Machine → ℕ → ℕ
ticks_at_event m k = counter_value m.host (ticks_reader m) k

-- what has passed from read `i` to read `j`
abbrev pub clock_passed : Machine → ℕ → ℕ → ℕ
clock_passed m i j = wrapping_sub (clock_at m j) (clock_at m i)

abbrev pub ticks_passed : Machine → ℕ → ℕ → ℕ
ticks_passed m i j = wrapping_sub (ticks_at_event m j) (ticks_at_event m i)

pub ticks-eq :
    (m : Machine) (w : World)
    → ticks_reader m ≢ no_clock
    → ticks m w ≡ ok (ticks_at_event m w.event) (next_event w)
unfolding ticks
ticks-eq m w h = ground arith

not-passed : {a : ℕ} → a < calibration_time_ns → calibration_time_ns ≤ a → ⊥
not-passed lt le = omega arith

-- The loop leaves at a read by which the time has passed.
pub spin_until-returns :
    (rounds : ℕ) (m : Machine) (start limit : ℕ) (w : World)
    → w.event ≤ limit
    → limit < w.event + rounds
    → calibration_time_ns ≤ wrapping_sub (clock_at m limit) start
    → (j : ℕ) × (w.event ≤ j)
      × (j ≤ limit)
      × (calibration_time_ns ≤ wrapping_sub (clock_at m j) start)
      × (spin_until rounds m start w ≡ ok tt (at_event w (j + 1)))
unfolding spin_until
spin_until-returns zero m start limit w from to passed = absurd (omega arith)
spin_until-returns (suc rounds) m start limit w from to passed =
    elim (Bool-cases (ltb (wrapping_sub (clock_at m w.event) start) calibration_time_ns)) [
      | inl again ↦
          let early : w.event ≢ limit = λ e.
            not-passed
              (subst (λ k. wrapping_sub (clock_at m k) start < calibration_time_ns) e
                (ltb→lt _ _ again))
              passed in
          let (j, low, high, done, e) =
            spin_until-returns rounds m start limit (next_event w) (omega arith) (omega arith)
              passed in
          (j, omega arith, high, done, rw again e)
      | inr over ↦ (w.event, omega arith, from, not-ltb→le _ _ over, rw over)
    ]

-- The reads of one sample: it starts at read `e`, and its loop leaves at read `j`.
pub record IsWindow (m : Machine) (e j : ℕ) : Type 0 where
  pub after : e + 2 ≤ j
  pub within : j ≤ e + 2 + m.spins
  pub passed : calibration_time_ns ≤ clock_passed m e j

abbrev pub reading : Machine → ℕ → ℕ → ℕ
reading m e j = estimate (ticks_passed m (e + 1) (j + 1)) (clock_passed m e (j + 1 + 1))

-- Wherever it starts, the loop sees the clock pass the calibration time within the rounds it is
-- followed for.
abbrev pub ClockMovesOn : Machine → Type 0
ClockMovesOn m =
    (e : ℕ)
    → (limit : ℕ) × (e + 2 ≤ limit)
      × (limit < e + 2 + m.spins)
      × (calibration_time_ns ≤ clock_passed m e limit)

pub sample-returns :
    (m : Machine) (w : World)
    → ticks_reader m ≢ no_clock
    → ClockMovesOn m
    → (j : ℕ) × IsWindow m w.event j
      × (sample m w ≡ ok (reading m w.event j) (at_event w (j + 1 + 1 + 1)))
unfolding sample
sample-returns m w clock moves =
    let (limit, low, high, passed) = moves w.event in
    let (j, from, to, done, e) =
      spin_until-returns m.spins m (clock_at m w.event) limit (at_event w (w.event + 1 + 1))
        (omega arith) (omega arith) passed in
    (
      j,
      record { after = omega arith; within = omega arith; passed = done },
      rw (ticks-eq m _ clock, e, ticks-eq m _ clock),
    )

-- Some number of samples, each of a window of its own.
pub samples-return :
    (P : ℕ → Type 0) (n : ℕ) (m : Machine) (w : World)
    → ticks_reader m ≢ no_clock
    → ClockMovesOn m
    → ((e j : ℕ) → IsWindow m e j → P (reading m e j))
    → (hs : List ℕ) × (k : ℕ) × (samples n m w ≡ ok hs (at_event w k)) × (length hs ≡ n) × All P hs
unfolding samples
samples-return P zero m w clock moves each = ([], w.event, refl, refl, tt)
samples-return P (suc n) m w clock moves each =
    let (j, window, e) = sample-returns m w clock moves in
    let (hs, k, es, len, all) =
      samples-return P n m (at_event w (j + 1 + 1 + 1)) clock moves each in
    (reading m w.event j ∷ hs, k, rw (e, es), ap suc len, (each w.event j window, all))
