-- ===== src/Arch/Order.antt =====
-- The `asm!` blocks of src/arch/*.rs as instructions in program order, and the orders in which a
-- compiler and a processor may let them happen. What the two keep in order is a parameter.
pub mod Reorder
pub mod Kinds
pub mod Barrier
use hotclock.Prelude.{Bool, true, false, ◌&&◌, List, [], ◌∷◌, ◌++◌, Option, none, some}
use hotclock.Target.Items.{Reader}

-- an `Acquire` load of the caller, the barriers, and the reads of a counter; the last is a call of
-- the system's or the host's clock
pub data Insn : Type 0 where
  acquire_load : Insn
  lfence isb_sy fence_iorw dbar : Insn
  rdtsc mrs_cntvct rdtime rdtime_d clock_call : Insn

abbrev pub is_barrier : Insn → Bool
is_barrier lfence = true
is_barrier isb_sy = true
is_barrier fence_iorw = true
is_barrier dbar = true
is_barrier _ = false

abbrev pub is_read : Insn → Bool
is_read rdtsc = true
is_read mrs_cntvct = true
is_read rdtime = true
is_read rdtime_d = true
is_read clock_call = true
is_read _ = false

-- the instruction that reads the counter
abbrev pub read_of : Reader → Insn
read_of Reader.rdtsc_x86_64 = rdtsc
read_of Reader.rdtsc_x86 = rdtsc
read_of Reader.cntvct = mrs_cntvct
read_of Reader.rdtime_riscv64 = rdtime
read_of Reader.rdtime_loongarch64 = rdtime_d
read_of _ = clock_call

-- the barrier in front of the ordered read
abbrev pub barrier_of : Reader → Option Insn
barrier_of Reader.rdtsc_x86_64 = some lfence
barrier_of Reader.rdtsc_x86 = some lfence
barrier_of Reader.cntvct = some isb_sy
barrier_of Reader.rdtime_riscv64 = some fence_iorw
barrier_of Reader.rdtime_loongarch64 = some dbar
barrier_of _ = none

-- where an instruction stands: in the caller before the read, in the read, in the caller after it
pub data Part : Type 0 where
  before inside after : Part

-- `nomem` is the option of the `asm!` block that the instruction is in
pub record Placed : Type 0 where
  pub part : Part
  pub insn : Insn
  pub nomem : Bool

abbrev pub placed : Part → Bool → List Insn → List Placed
placed p nomem [] = []
placed p nomem (i ∷ is) = record { part = p; insn = i; nomem = nomem } ∷ placed p nomem is

-- The block of a plain read: one instruction, with `nomem`. The intrinsic `_rdtsc` and the calls
-- of a clock are no `asm!` blocks; they stand here as one instruction in the same way.
unfoldable pub plain_block : Reader → List Placed
plain_block r = placed inside true (read_of r ∷ [])

with_barrier : Option Insn → Insn → List Insn
with_barrier none read = read ∷ []
with_barrier (some barrier) read = barrier ∷ read ∷ []

-- the block of an ordered read: the barrier and the instruction, without `nomem`
unfoldable pub ordered_block : Reader → List Placed
unfolding with_barrier
ordered_block r = placed inside false (with_barrier (barrier_of r) (read_of r))

-- the caller's instructions around a block
abbrev pub around : List Insn → List Placed → List Insn → List Placed
around earlier block later = placed before false earlier ++ (block ++ placed after false later)

-- What the compiler and the processor keep: whether an instruction happens before another that
-- follows it in program order.
pub record Rules : Type 0 where
  pub compiler : Placed → Placed → Bool
  pub processor : Insn → Insn → Bool

abbrev pub keeps : Rules → Placed → Placed → Bool
keeps rules x y = rules.compiler x y && rules.processor x.insn y.insn
