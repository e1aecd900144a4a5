-- ===== src/Bench/CrossThread/Interleaved.antt =====
-- src/bench.rs, `measure_cross_thread`: the threads step by step, as they interleave at the flag
-- `stop` and the shared maximum. What `now_as_u64` returns is a parameter: the number that a thread
-- gets from its k-th read.
pub mod Collected
pub mod Rounds
pub mod Finishing
pub mod Monotone
use hotclock.Prelude.{ℕ, ◌+◌, ◌<◌, ◌≡◌, Bool, true, false, ◌==◌, ltb, max, if◌then◌else◌}
use hotclock.Bench.CrossThread.{Round, Local, fresh, after_round}

-- Where a thread is: at the test of the loop, before the first read, with it before `fetch_max`,
-- after that with what it returned, or out of the loop.
pub data Pc : Type 0 where
  checking reading finished : Pc
  publishing : ℕ → Pc
  closing : ℕ → ℕ → Pc

pub record State : Type 0 where
  pub shared : ℕ
  pub stop : Bool
  pub pcs : ℕ → Pc
  pub reads : ℕ → ℕ
  pub local : ℕ → Local

abbrev pub at_thread {ℓ} : {A : Type ℓ} → (ℕ → A) → ℕ → A → ℕ → A
at_thread f i a j = if j == i then a else f j

-- the threads are spawned, and wait at the barrier
abbrev pub start : ℕ → State
start threads = record {
  shared = 0;
  stop = false;
  pcs = λ i. if ltb i threads then checking else finished;
  reads = λ i. 0;
  local = λ i. fresh;
}

-- the round that a thread ends by its next read
abbrev pub ended : (ℕ → ℕ → ℕ) → State → ℕ → ℕ → Round
ended clock s i r1 = record { thread = i; r1 = r1; r2 = clock i (s.reads i) }

pub data Step (clock : ℕ → ℕ → ℕ) (s : State) : State → Type 0 where
  go_on :
      (i : ℕ)
      → s.pcs i ≡ checking
      → s.stop ≡ false
      → Step clock s (record s { pcs = at_thread s.pcs i reading })
  leave :
      (i : ℕ)
      → s.pcs i ≡ checking
      → s.stop ≡ true
      → Step clock s (record s { pcs = at_thread s.pcs i finished })
  read :
      (i : ℕ)
      → s.pcs i ≡ reading
      → Step clock s (record s {
        pcs = at_thread s.pcs i (publishing (clock i (s.reads i)));
        reads = at_thread s.reads i (s.reads i + 1);
      })
  publish :
      (i r1 : ℕ)
      → s.pcs i ≡ publishing r1
      → Step clock s
          (record s { shared = max s.shared r1; pcs = at_thread s.pcs i (closing s.shared r1) })
  close :
      (i prev r1 : ℕ)
      → s.pcs i ≡ closing prev r1
      → Step clock s (record s {
        pcs = at_thread s.pcs i checking;
        reads = at_thread s.reads i (s.reads i + 1);
        local = at_thread s.local i (after_round prev (ended clock s i r1) (s.local i));
      })
  set_stop : Step clock s (record s { stop = true })

pub data Reach (clock : ℕ → ℕ → ℕ) (s : State) : State → Type 0 where
  here : Reach clock s s
  next : {t u : State} → Reach clock s t → Step clock t u → Reach clock s u
