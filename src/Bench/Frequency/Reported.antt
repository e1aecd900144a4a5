-- ===== src/Bench/Frequency/Reported.antt =====
-- src/bench.rs: what the reported frequency says of the frequency that the crate uses.
use native.Mathlib.Nat.{div-le_self, le-div_iff_mul-le, div-mul-le_self}
use hotclock.Prelude.{
  ℕ, ◌+◌, ◌*◌, ◌/◌, ◌≤◌, ◌<◌, ◌≡◌, ◌∙◌, ap, arith, true, false, inl, inr, Option, if◌then◌else◌,
  Option-cases, some, none, sym,
}
use hotclock.Target.{Target, on_x86_direct, on_arch, x86_64, wasi, wasm32}
use hotclock.Target.Items.{x86_cpuid, frequency_item, read_frequency_items}
use hotclock.Machine.{Machine, World, ok}
use hotclock.Arch.X86_64
use hotclock.Arch.X86
use hotclock.Arch.Frequency.{read_frequency}
use hotclock.Arch.Scale.{scale_of, nanos_per_second_q32}
use hotclock.Arch.Scale.Accuracy.{scale_of_bounds, scale_of_pos}
use hotclock.Arch.Scale.Cache.{nanos_per_tick_q32_set}
use hotclock.Calibration.{calibrate_frequency}
use hotclock.Bench.Frequency.{frequency_of_scale, tach_freq_hz, tach_used_cpuid_15h}

frequency_of_scale-div : (q : ℕ) → 0 < q → frequency_of_scale q ≡ nanos_per_second_q32 / q
unfolding frequency_of_scale
frequency_of_scale-div q pos = ground (arith, div-le_self nanos_per_second_q32 q)

-- While the cache holds the scale of a frequency `f` from 1 to 10^9 * 2^32, the report names a
-- frequency that is never below `f`, and above it by at most `f / scale`; no static changes.
pub tach_freq_hz_lem :
    (m : Machine) (w : World) (f : ℕ)
    → 0 < f
    → f ≤ nanos_per_second_q32
    → w.nanos_per_tick_q32 ≡ scale_of f
    → (hz : ℕ) × (tach_freq_hz m w ≡ ok hz w) × (f ≤ hz) × (hz * scale_of f ≤ f * scale_of f + f)
unfolding tach_freq_hz
tach_freq_hz_lem m w f pos most cached =
    let q = scale_of f in
    let (below, above) = scale_of_bounds f pos in
    let positive : 0 < q = scale_of_pos f pos most in
    let hz = frequency_of_scale q in
    let e : hz ≡ nanos_per_second_q32 / q = frequency_of_scale-div q positive in
    let low : hz * q ≤ nanos_per_second_q32 =
      omega (arith, ap (λ (x : ℕ). x * q) e, div-mul-le_self nanos_per_second_q32 q) in
    let least : f ≤ nanos_per_second_q32 / q =
      (le-div_iff_mul-le positive).1 (omega (arith, below)) in
    (
      hz,
      rw (nanos_per_tick_q32_set m w (omega arith), cached),
      omega (arith, least),
      omega (arith, low, above),
    )

-- the leaf that the target reads
cpuid_of : Machine → Option ℕ
cpuid_of m = if on_arch m.target x86_64 then X86_64.cpuid_tsc_hz m.host else X86.cpuid_tsc_hz m.host

direct-frequency_item :
    (t : Target)
    → (t.os ≡ wasi → t.arch ≡ wasm32)
    → on_x86_direct t ≡ true
    → frequency_item (read_frequency_items t) ≡ x86_cpuid
unfolding read_frequency_items
direct-frequency_item t h direct = ground arith

cpuid_of-none :
    (m : Machine) (w : World)
    → (m.target.os ≡ wasi → m.target.arch ≡ wasm32)
    → on_x86_direct m.target ≡ true
    → cpuid_of m ≡ none
    → (tach_used_cpuid_15h m ≡ false) × (read_frequency m w ≡ calibrate_frequency m w)
unfolding tach_used_cpuid_15h read_frequency on_x86_direct cpuid_of
cpuid_of-none m w h direct e = ground (arith, direct-frequency_item m.target h direct)

cpuid_of-some :
    (m : Machine) (w : World) (hz : ℕ)
    → (m.target.os ≡ wasi → m.target.arch ≡ wasm32)
    → on_x86_direct m.target ≡ true
    → cpuid_of m ≡ some hz
    → (tach_used_cpuid_15h m ≡ true) × (read_frequency m w ≡ ok hz w)
unfolding tach_used_cpuid_15h read_frequency on_x86_direct cpuid_of
cpuid_of-some m w hz h direct e = ground (arith, direct-frequency_item m.target h direct)

-- On x86 and x86_64 outside macOS, Windows and WASI, `tach_used_cpuid_15h` tells how the frequency
-- is read: if it answers true, `read_frequency` returns at once with no read of the host, and if it
-- answers false, `read_frequency` is the calibration.
pub tach_used_cpuid_15h_lem :
    (m : Machine) (w : World)
    → (m.target.os ≡ wasi → m.target.arch ≡ wasm32)
    → on_x86_direct m.target ≡ true
    → (tach_used_cpuid_15h m ≡ true → (hz : ℕ) × (read_frequency m w ≡ ok hz w))
      × (tach_used_cpuid_15h m ≡ false → read_frequency m w ≡ calibrate_frequency m w)
tach_used_cpuid_15h_lem m w h direct = elim (Option-cases (cpuid_of m)) [
  | inl e ↦
      let (unused, measured) = cpuid_of-none m w h direct e in
      (λ used. cc (sym unused ∙ used), λ _. measured)
  | inr a ↦
      let (hz, e) = a in
      let (used, known) = cpuid_of-some m w hz h direct e in
      (λ _. (hz, known), λ unused. cc (sym unused ∙ used))
]
