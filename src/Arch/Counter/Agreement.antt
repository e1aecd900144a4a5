-- ===== src/Arch/Counter/Agreement.antt =====
-- src/arch/*.rs: the ordered reads deliver the same counter as the plain ones, and CPUID leaf 0x15
-- the frequency that its fields stand for.
use native.Mathlib.Nat.{mul-le-mul}
use mathlib.Core.Path.{fun_ext}
use hotclock.Prelude.{
  ℕ, ◌+◌, ◌*◌, ◌/◌, ◌%◌, ◌^◌, ◌≤◌, ◌<◌, ◌≡◌, ◌↔◌, refl, ap₂, ◌∙◌, some, bit_or, arith,
}
use hotclock.Word.{u32_mod, u64_mod}
use hotclock.Word.Fields.{bit_or-add}
use hotclock.Target.Items.{Reader, reader}
use hotclock.Target.Dispatch.{ticks_items-one}
use hotclock.Machine.{Host, Halves, Machine, World, CpuidResult}
use hotclock.Arch.X86_64
use hotclock.Arch.X86
use hotclock.Arch.Registers
use hotclock.Arch.Counter.{counter_value, counter_value_ordered, read_counter, ticks, ticks_ordered}

-- The instruction `rdtsc` leaves in EDX and EAX the two halves of the counter that the intrinsic
-- returns.
pub record SplitsTsc (h : Host) : Type 0 where
  pub hi_fits : (k : ℕ) → (h.rdtsc_halves k).hi < u32_mod
  pub lo_fits : (k : ℕ) → (h.rdtsc_halves k).lo < u32_mod
  pub whole : (k : ℕ) → (h.rdtsc_halves k).hi * 2 ^ 32 + (h.rdtsc_halves k).lo ≡ h.rdtsc_intrinsic k

halves_joined :
    (s : Halves)
    → s.hi < u32_mod
    → s.lo < u32_mod
    → bit_or (s.hi * 2 ^ 32 % u64_mod) s.lo ≡ s.hi * 2 ^ 32 + s.lo
halves_joined s hi lo =
    let fits : s.hi * 2 ^ 32 % u64_mod ≡ s.hi * 2 ^ 32 = omega arith in
    rw fits (bit_or-add 32 s.hi s.lo lo)

ordered_value :
    (h : Host)
    → SplitsTsc h
    → (r : Reader) (k : ℕ) → counter_value_ordered h r k ≡ counter_value h r k
unfolding counter_value counter_value_ordered X86_64.rdtsc_ordered X86_64.rdtsc X86.rdtsc_ordered
    X86.rdtsc Registers.cntvct Registers.cntvct_ordered Registers.rdtime Registers.rdtime_ordered
    Registers.rdtime_d Registers.rdtime_d_ordered
ordered_value h s Reader.rdtsc_x86_64 k =
    halves_joined (h.rdtsc_halves k) (s.hi_fits k) (s.lo_fits k) ∙ s.whole k
ordered_value h s Reader.rdtsc_x86 k =
    halves_joined (h.rdtsc_halves k) (s.hi_fits k) (s.lo_fits k) ∙ s.whole k
ordered_value h s Reader.cntvct k = refl
ordered_value h s r k = refl

-- On every target, and at the same read of the host, `ticks_ordered` returns what `ticks` returns,
-- the panic of a target without a clock included, if the instruction `rdtsc` splits the counter as
-- documented.
pub ticks_ordered-ticks :
    (m : Machine) (w : World) → SplitsTsc m.host → ticks_ordered m w ≡ ticks m w
unfolding ticks ticks_ordered
ticks_ordered-ticks m w s =
    let values = fun_ext (λ r. fun_ext (λ k. ordered_value m.host s r k)) in
    ap₂ (λ v items. read_counter v (reader items) w) values (ticks_items-one m.target).1

-- the fields of leaf 0x15 are registers of 32 bits
abbrev pub IsCpuid : CpuidResult → Type 0
IsCpuid leaf = (leaf.eax < u32_mod) × (leaf.ebx < u32_mod) × (leaf.ecx < u32_mod)

-- what the documentation of leaf 0x15 says of its frequency
abbrev pub IsTscFrequency : Host → ℕ → Type 0
IsTscFrequency h hz =
    let leaf = h.cpuid 0x15 in
    (0x15 ≤ (h.cpuid 0).eax)
    × (0 < leaf.eax)
    × (0 < leaf.ebx)
    × (0 < leaf.ecx)
    × (hz ≡ leaf.ecx * leaf.ebx / leaf.eax)

product_fits : (a b : ℕ) → a < u32_mod → b < u32_mod → a * b % u64_mod ≡ a * b
product_fits a b ha hb = omega (
  arith,
  mul-le-mul {n₁ = a} {m₁ = b} {n₂ = 0xffff_ffff} {m₂ = 0xffff_ffff} (omega arith) (omega arith),
)

-- With 32-bit registers `cpuid_tsc_hz` returns a frequency exactly when leaf 0x15 exists and has
-- no zero field, the frequency being `ecx * ebx / eax` with no overflow; and the modules of x86_64
-- and of x86 agree.
pub cpuid_tsc_hz_lem :
    (h : Host) (hz : ℕ)
    → IsCpuid (h.cpuid 0x15)
    → ((X86_64.cpuid_tsc_hz h ≡ some hz) ↔ IsTscFrequency h hz)
      × (X86.cpuid_tsc_hz h ≡ X86_64.cpuid_tsc_hz h)
unfolding X86_64.cpuid_tsc_hz X86.cpuid_tsc_hz
cpuid_tsc_hz_lem h hz (ha, hb, hc) =
    (ground (arith, product_fits (h.cpuid 0x15).ecx (h.cpuid 0x15).ebx hc hb), refl)
