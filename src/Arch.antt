-- ===== src/Arch.antt =====
-- src/arch/: the counter reads of each architecture (x86_64.rs, x86.rs, aarch64.rs, riscv64.rs,
-- loongarch64.rs, wasm.rs, fallback.rs), their dispatch (direct.rs), and the frequency and the
-- scale (mod.rs).
pub mod X86_64
pub mod X86
pub mod Registers
pub mod Fallback
pub mod Counter
pub mod Frequency
pub mod Scale
pub mod Race
pub mod Order
