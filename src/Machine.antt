-- ===== src/Machine.antt =====
-- What the crate runs on, and the state that its functions share.
--
-- `Host` stands for the hardware and the operating system: each register, instruction and call
-- that the source reads, as a function of the number of the read. `World` is the mutable state: the
-- statics of src/arch/mod.rs and src/background.rs, and the count of reads made so far.
pub mod Frame
use hotclock.Prelude.{ℕ, zero, suc, ◌+◌, Bool, ◌≡◌}
use hotclock.Target.{Target}
use hotclock.Word.Floats.{F64}

-- `CpuidResult`
pub record CpuidResult : Type 0 where
  pub eax : ℕ
  pub ebx : ℕ
  pub ecx : ℕ

-- EDX and EAX after the instruction `rdtsc`
pub record Halves : Type 0 where
  pub hi : ℕ
  pub lo : ℕ

-- `timespec`, each field as the u64 with the same bits
pub record Timespec : Type 0 where
  pub tv_sec : ℕ
  pub tv_nsec : ℕ

-- `MachTimebaseInfo`
pub record MachTimebaseInfo : Type 0 where
  pub numer : ℕ
  pub denom : ℕ

pub record Host : Type 0 where
  pub rdtsc_intrinsic : ℕ → ℕ
  pub rdtsc_halves : ℕ → Halves
  pub cpuid : ℕ → CpuidResult  -- by leaf
  pub cntvct_el0 : ℕ → ℕ
  pub cntfrq_el0 : ℕ
  pub rdtime_csr : ℕ → ℕ
  pub rdtime_d : ℕ → ℕ
  pub performance_now : ℕ → ℕ  -- the bits of the f64
  pub floats : F64
  pub mach_absolute_time : ℕ → ℕ
  pub mach_timebase_info : MachTimebaseInfo
  pub query_performance_frequency : ℕ  -- as the u64 with the same bits
  pub clock_gettime : ℕ → Timespec
  pub clock_time_get : ℕ → ℕ
  pub spawn_succeeds : ℕ → Bool

-- The host, the target, the Cargo feature, and the rounds that a spin loop is followed for.
pub record Machine : Type 0 where
  pub target : Target
  pub host : Host
  pub recalibrate_background : Bool
  pub spins : ℕ

pub record World : Type 0 where
  pub event : ℕ  -- reads of the host made so far
  pub nanos_per_tick_q32 : ℕ  -- the static NANOS_PER_TICK_Q32; 0 is "not yet set"
  pub interval_secs : ℕ  -- the static INTERVAL_SECS
  pub thread_set : Bool  -- whether the static THREAD is initialised
  pub threads : ℕ  -- background threads running

pub data Panic : Type 0 where
  divide_by_zero add_overflow sub_overflow no_clock_source no_anchor assertion : Panic

-- A run returns, panics, or is still in its spin loop after all the rounds it was followed for.
pub data Outcome {ℓ} (A : Type ℓ) : Type ℓ where
  ok : A → World → Outcome A
  panic : Panic → Outcome A
  spinning : Outcome A

abbrev pub Run {ℓ} : Type ℓ → Type ℓ
Run A = World → Outcome A

module _ {ℓ} {A : Type ℓ} where
  abbrev pub pure : A → Run A
  pure a w = ok a w

  abbrev pub panics : Panic → Run A
  panics p w = panic p

module _ {ℓ κ} {A : Type ℓ} {B : Type κ} where
  abbrev pub continue : Outcome A → (A → Run B) → Outcome B
  continue (ok a w) f = f a w
  continue (panic p) f = panic p
  continue spinning f = spinning

  infixl 5 ◌>>=◌
  abbrev pub ◌>>=◌ : Run A → (A → Run B) → Run B
  ◌>>=◌ m f w = continue (m w) f

infixl 5 ◌>>◌
abbrev pub ◌>>◌ {ℓ} : {B : Type ℓ} → Run (Unit {0}) → Run B → Run B
m >> k = m >>= λ _. k

-- the world after a read of the host
abbrev pub next_event : World → World
next_event w = record w { event = w.event + 1 }

-- one read of the host
abbrev pub observe {ℓ} : {A : Type ℓ} → (ℕ → A) → Run A
observe read w = ok (read w.event) (next_event w)

-- the same statics, after `k` reads in all
abbrev pub at_event : World → ℕ → World
at_event w k = record w { event = k }
