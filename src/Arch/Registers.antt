-- ===== src/Arch/Registers.antt =====
-- src/arch/aarch64.rs, src/arch/riscv64.rs, src/arch/loongarch64.rs: counters that one register
-- read delivers. A barrier before the read has no effect on the value; it is in
-- Arch/Order.antt.
-- src/arch/wasm.rs: the float product and its cast are the host's.
use hotclock.Prelude.{ℕ}
use hotclock.Word.Floats.{million_f64}
use hotclock.Machine.{Host}

unfoldable pub cntvct : Host → ℕ → ℕ
cntvct h k = h.cntvct_el0 k

unfoldable pub cntvct_ordered : Host → ℕ → ℕ
cntvct_ordered h k = h.cntvct_el0 k

unfoldable pub cntfrq : Host → ℕ
cntfrq h = h.cntfrq_el0

unfoldable pub rdtime : Host → ℕ → ℕ
rdtime h k = h.rdtime_csr k

unfoldable pub rdtime_ordered : Host → ℕ → ℕ
rdtime_ordered h k = h.rdtime_csr k

unfoldable pub rdtime_d : Host → ℕ → ℕ
rdtime_d h k = h.rdtime_d k

unfoldable pub rdtime_d_ordered : Host → ℕ → ℕ
rdtime_d_ordered h k = h.rdtime_d k

unfoldable pub wasm_ticks : Host → ℕ → ℕ
wasm_ticks h k = let f = h.floats in f.to_u64 (f.mul (h.performance_now k) million_f64)
