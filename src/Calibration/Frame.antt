-- ===== src/Calibration/Frame.antt =====
-- src/calibration.rs: the calibration reads the host and changes no static.
use hotclock.Prelude.{ℕ, zero, suc, ◌∷◌, arith}
use hotclock.Target.Items.{Reader, ticks_items, reader}
use hotclock.Machine.{Machine, no_clock_source, next_event, pure, ◌>>=◌}
use hotclock.Machine.Frame.{
  OnlyReads, OnlyReads-panics, OnlyReads-observe, OnlyReads-bind, OnlyReads-pure, only_reads,
}
use hotclock.Arch.Counter.{ticks, read_counter, counter_value}
use hotclock.Calibration.{spin_until, sample, samples, calibrate_frequency}

read_counter-OnlyReads : (value : Reader → ℕ → ℕ) (r : Reader) → OnlyReads (read_counter value r)
unfolding read_counter
read_counter-OnlyReads value Reader.no_clock = OnlyReads-panics no_clock_source
read_counter-OnlyReads value r = OnlyReads-observe (value r)

ticks-OnlyReads : (m : Machine) → OnlyReads (ticks m)
unfolding ticks
ticks-OnlyReads m = read_counter-OnlyReads (counter_value m.host) (reader (ticks_items m.target))

spin_until-OnlyReads :
    (rounds : ℕ) (m : Machine) (start : ℕ) → OnlyReads (spin_until rounds m start)
unfolding spin_until
spin_until-OnlyReads zero m start = record { at = λ w a w' e. cc }
spin_until-OnlyReads (suc rounds) m start = record {
  at = λ w a w' e. ground (arith, (spin_until-OnlyReads rounds m start).at (next_event w) a w');
}

sample-OnlyReads : (m : Machine) → OnlyReads (sample m)
unfolding sample
sample-OnlyReads m = search (only_reads, ticks-OnlyReads, spin_until-OnlyReads) depth 8

samples-OnlyReads : (n : ℕ) (m : Machine) → OnlyReads (samples n m)
unfolding samples
samples-OnlyReads zero m = search only_reads
samples-OnlyReads (suc n) m =
    OnlyReads-bind (sample m) (λ e. samples n m >>= λ rest. pure (e ∷ rest)) (sample-OnlyReads m)
      (λ e.
        OnlyReads-bind (samples n m) (λ rest. pure (e ∷ rest)) (samples-OnlyReads n m)
          (λ rest. OnlyReads-pure (e ∷ rest)))

pub calibrate_frequency-OnlyReads : (m : Machine) → OnlyReads (calibrate_frequency m)
unfolding calibrate_frequency
calibrate_frequency-OnlyReads m = search (only_reads, samples-OnlyReads)
