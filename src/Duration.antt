-- ===== src/Duration.antt =====
-- `core::time::Duration`, as far as the crate uses it: whole seconds and the nanoseconds below one.
use hotclock.Prelude.{ℕ, ◌+◌, ◌-◌, ◌*◌, ◌/◌, ◌%◌, ◌<◌, min, max}
use hotclock.Word.{u64_mod}

abbrev pub nanos_per_sec : ℕ
nanos_per_sec = 1_000_000_000

pub record Duration : Type 0 where
  pub secs : ℕ
  pub nanos : ℕ

-- What the type keeps private: a u64 of seconds, and less than a second of nanoseconds.
pub record IsDuration (d : Duration) : Type 0 where
  pub secs_fit : d.secs < u64_mod
  pub below_sec : d.nanos < nanos_per_sec

abbrev pub zero_duration : Duration
zero_duration = record { secs = 0; nanos = 0 }

-- `Duration::new`: nanoseconds from a second on are carried. (The carry can pass u64 only for
-- `secs` near its end; the crate passes 0.)
abbrev pub new : ℕ → ℕ → Duration
new secs nanos = record { secs = secs + nanos / nanos_per_sec; nanos = nanos % nanos_per_sec }

abbrev pub from_nanos : ℕ → Duration
from_nanos n = record { secs = n / nanos_per_sec; nanos = n % nanos_per_sec }

abbrev pub from_secs : ℕ → Duration
from_secs s = record { secs = s; nanos = 0 }

abbrev pub as_nanos : Duration → ℕ
as_nanos d = d.secs * nanos_per_sec + d.nanos

abbrev pub as_secs : Duration → ℕ
as_secs d = d.secs

abbrev pub from_millis : ℕ → Duration
from_millis ms = new (ms / 1_000) (ms % 1_000 * 1_000_000)

abbrev pub from_micros : ℕ → Duration
from_micros us = new (us / 1_000_000) (us % 1_000_000 * 1_000)

abbrev pub as_millis : Duration → ℕ
as_millis d = as_nanos d / 1_000_000

-- the distance of two durations, through their nanoseconds
abbrev pub abs_diff : Duration → Duration → Duration
abs_diff a b = from_nanos (max (as_nanos a) (as_nanos b) - min (as_nanos a) (as_nanos b))
