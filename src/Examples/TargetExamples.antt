-- ===== src/Examples/TargetExamples.antt =====
-- The dispatch on x86_64 Linux, x86_64 Windows and x86_64 SGX.
use hotclock.Prelude.{◌≡◌, ◌↔◌, ◌∷◌, [], true, false, refl}
use hotclock.Target.{
  Target, x86_64, linux, windows, unknown, calibration_enabled, clock_monotonic_enabled,
}
use hotclock.Target.Items.{
  rdtsc_x86_64, x86_cpuid, ticks_items, read_frequency_items, reader, frequency_item,
}
use hotclock.Target.Dispatch.{rates, rates_iff, IsMismatched}

abbrev linux_x86_64 : Target
linux_x86_64 = record { arch = x86_64; os = linux }

abbrev windows_x86_64 : Target
windows_x86_64 = record { arch = x86_64; os = windows }

-- `x86_64-fortanix-unknown-sgx`
abbrev sgx : Target
sgx = record { arch = x86_64; os = unknown }

linux_items :
    (ticks_items linux_x86_64 ≡ rdtsc_x86_64 ∷ [])
    × (read_frequency_items linux_x86_64 ≡ x86_cpuid ∷ [])
unfolding ticks_items read_frequency_items
linux_items = (refl, refl)

sgx_unresolved : (calibration_enabled sgx ≡ true) × (clock_monotonic_enabled sgx ≡ false)
unfolding calibration_enabled clock_monotonic_enabled
sgx_unresolved = (refl, refl)

rates_iff_example :
    (rates
        (frequency_item (read_frequency_items windows_x86_64))
        (reader (ticks_items windows_x86_64))
      ≡ false)
    ↔ IsMismatched windows_x86_64
rates_iff_example = rates_iff windows_x86_64 (λ e. cc)
