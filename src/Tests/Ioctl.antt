-- ===== src/Tests/Ioctl.antt =====
-- A session under `wd_ioctl`: load, run code that grows the memory, read, an unknown command.
use kernel_wasm.Base.{
  ℕ, ◌/◌, ◌≡◌, ◌==◌, if◌then◌else◌, refl, arith, Option, some, List, [], ◌∷◌, neg,
}
use kernel_wasm.Kapi.Registry.{init_global_registry}
use kernel_wasm.Kernel.{Kernel, World, einval, page}
use kernel_wasm.Kernel.Ledger.{Gained}
use kernel_wasm.Uapi.Ioctl.{Run, wd_ioctl, ioctls, wasm_load_code, wasm_run_code, wasm_read_memory}
use kernel_wasm.Uapi.Ioctl.Growth.{ioctls_lost}
use kernel_wasm.Uapi.Ioctl.Lifetime.{Aligned, ioctls_free_all}
use kernel_wasm.Uapi.Session.{wd_open}
use kernel_wasm.Tests.Machine.{machine, booted}
use kernel_wasm.Tests.Uapi.{users, opened}
use kernel_wasm.Tests.Vm.{unset, uninit}

-- Compiled code that grows the memory by one page, then by two.
abbrev growing : World → ℕ → Option Run
growing w arg = some (record { ret = 0; grows = 1 ∷ 2 ∷ [] })

abbrev commands : List (ℕ × ℕ)
commands =
    (wasm_load_code, 0)
    ∷ (wasm_run_code, 0)
    ∷ (wasm_read_memory, 0)
    ∷ (7, 0)
    ∷ (wasm_run_code, 0)
    ∷ []

users-Aligned : Aligned users
users-Aligned = record { aligned = λ w arg req e. ground arith }

-- On this kernel two WebAssembly pages cannot be mapped at once.
abbrev mapless : Kernel
mapless = record machine { map_range = λ w addr size. if size == 131072 then 0 else size / 4096 }

opens_mapless : (wd_open mapless 4096 uninit booted).0 ≡ some opened
unfolding wd_open
opens_mapless = refl

ioctls_free_all_example :
    Gained page 8388608 booted
      (ioctls mapless users growing init_global_registry unset commands opened
        (wd_open mapless 4096 uninit booted).1)
      (ioctls_lost mapless users growing init_global_registry unset page 8388608 commands opened
        (wd_open mapless 4096 uninit booted).1)
ioctls_free_all_example =
    ioctls_free_all mapless users growing init_global_registry unset 4096 uninit commands opened
      booted page 8388608 tt users-Aligned (omega arith) opens_mapless

unknown_command :
    (wd_ioctl machine users growing init_global_registry unset 0x1005 0 opened booted).ret
    ≡ neg einval
unfolding wd_ioctl
unknown_command = refl
