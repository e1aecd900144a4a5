-- ===== src/Target.antt =====
-- The compilation target, and the `cfg` conditions that src/arch/mod.rs, src/arch/direct.rs,
-- src/arch/fallback.rs and src/lib.rs put on their items.
pub mod Items
pub mod Dispatch
use hotclock.Prelude.{ℕ, Bool, true, false, not, ◌&&◌, ◌||◌, ◌==◌}

-- `target_arch`, as far as the source names it
pub data Arch : Type 0 where
  x86_64 x86 aarch64 riscv64 loongarch64 wasm32 other_arch : Arch

-- `target_os`, as far as the source names it; `bare` is "none", and the two last are the systems
-- that it does not name, by their `unix` flag
pub data Os : Type 0 where
  linux macos windows wasi unknown bare other_unix other_os : Os

pub record Target : Type 0 where
  pub arch : Arch
  pub os : Os

abbrev arch_id : Arch → ℕ
arch_id x86_64 = 0
arch_id x86 = 1
arch_id aarch64 = 2
arch_id riscv64 = 3
arch_id loongarch64 = 4
arch_id wasm32 = 5
arch_id other_arch = 6

abbrev os_id : Os → ℕ
os_id linux = 0
os_id macos = 1
os_id windows = 2
os_id wasi = 3
os_id unknown = 4
os_id bare = 5
os_id other_unix = 6
os_id other_os = 7

-- `cfg(target_arch = "…")`
abbrev pub on_arch : Target → Arch → Bool
on_arch t a = arch_id t.arch == arch_id a

-- `cfg(target_os = "…")`
abbrev pub on_os : Target → Os → Bool
on_os t o = os_id t.os == os_id o

-- `cfg(unix)`
abbrev pub on_unix : Target → Bool
on_unix t = on_os t linux || on_os t macos || on_os t other_unix

-- `all(target_arch = "wasm32", any(target_os = "unknown", target_os = "none"))`
unfoldable pub on_wasm_host : Target → Bool
on_wasm_host t = on_arch t wasm32 && (on_os t unknown || on_os t bare)

-- `all(any(target_arch = "x86_64", target_arch = "x86"), not(any(target_os = "macos", …)))`
unfoldable pub on_x86_direct : Target → Bool
on_x86_direct t = (on_arch t x86_64 || on_arch t x86) && not (on_os t macos || on_os t windows)

-- the condition on `mod calibration`
unfoldable pub calibration_enabled : Target → Bool
unfolding on_wasm_host
calibration_enabled t =
    not (on_arch t aarch64 || on_os t macos || on_os t windows || on_os t wasi || on_wasm_host t)

-- the condition on `fallback::clock_monotonic`
unfoldable pub clock_monotonic_enabled : Target → Bool
clock_monotonic_enabled t = on_unix t && not (on_os t macos)
