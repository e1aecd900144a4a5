-- ===== src/Arch/X86_64.antt =====
-- src/arch/x86_64.rs: the time stamp counter, and its frequency by CPUID.
use hotclock.Prelude.{
  ℕ, ◌*◌, ◌/◌, ◌%◌, ◌^◌, Option, none, some, bit_or, ltb, ◌==◌, ◌||◌, if◌then◌else◌,
}
use hotclock.Word.{u64_mod}
use hotclock.Machine.{Host}

unfoldable pub rdtsc : Host → ℕ → ℕ
rdtsc h k = h.rdtsc_intrinsic k

-- `ecx * ebx / eax` of leaf 0x15, where the leaf is there and has no zero field
unfoldable pub cpuid_tsc_hz : Host → Option ℕ
cpuid_tsc_hz h =
    let basic = h.cpuid 0 in
    let leaf = h.cpuid 0x15 in
    if ltb basic.eax 0x15
    then none
    else if leaf.eax == 0 || leaf.ebx == 0 || leaf.ecx == 0
    then none
    else some (leaf.ecx * leaf.ebx % u64_mod / leaf.eax)

-- `lfence; rdtsc`, and the two halves put together
unfoldable pub rdtsc_ordered : Host → ℕ → ℕ
rdtsc_ordered h k = let halves = h.rdtsc_halves k in bit_or (halves.hi * 2 ^ 32 % u64_mod) halves.lo
