-- ===== src/Vm/Sized/Placed.antt =====
-- vm.c: where the memory of a loaded engine lies.
use kernel_wasm.Base.{ℕ, ◌+◌, ◌^◌, ◌<◌, ◌≡◌, arith}
use kernel_wasm.Kapi.Info.{ImportInfo}
use kernel_wasm.Kapi.Registry.{Registry}
use kernel_wasm.Kernel.{Kernel, World}
use kernel_wasm.Vm.Engine.{Engine, LoadCodeRequest, static_memory_size, static_memory_available}
use kernel_wasm.Vm.Init.{
  init_body, init_code, init_pages, init_mapping, init_memory, init_globals, init_imports,
  init_sigindices, init_table, init_stack,
}
use kernel_wasm.Vm.Load.{init_execution_engine}
use kernel_wasm.Vm.Setup.{Setup, Stage}
use kernel_wasm.Vm.Sized.{
  SameSize, prepared, init_code-SameSize, init_globals-SameSize, init_imports-SameSize,
  init_sigindices-SameSize, init_table-SameSize, init_stack-SameSize,
}
use kernel_wasm.Vm.Triple.{Triple, Triple-then, load_leaves}

-- `__get_vm_area(STATIC_MEMORY_SIZE, …)` gives areas inside the address space.
pub record HasRoom (os : Kernel) : Type 0 where
  pub room : (area : ℕ) → os.area_addr area + static_memory_size < 2 ^ 64

-- As far as the memory can grow, it stays inside the address space.
abbrev pub CanGrow : Engine → Type 0
CanGrow ee = ee.ctx.memory_base + static_memory_available < 2 ^ 64

SameSize-CanGrow : (m : Stage) → ((s : Setup) → SameSize s.ee (m s).1.ee) → Triple CanGrow m CanGrow
SameSize-CanGrow m same = record { leaves = λ s can h. let still = same s in omega arith }

module _ (os : Kernel) (room : HasRoom os) (request : LoadCodeRequest) (info : ImportInfo ℕ) where
  init_pages-base :
      (s : Setup) → (init_pages os request s).1.ee.ctx.memory_base ≡ s.ee.ctx.memory_base
  unfolding init_pages
  init_pages-base s = ground arith

  init_mapping-CanGrow : (s : Setup) → CanGrow s.ee → CanGrow (init_mapping os request s).1.ee
  unfolding init_mapping
  init_mapping-CanGrow s can = ground (arith, room.room s.ee.static_memory_vm)

  init_memory-CanGrow : (s : Setup) → CanGrow s.ee → CanGrow (init_memory os request s).1.ee
  unfolding init_memory
  init_memory-CanGrow s can =
      let s₁ = prepared os request info s in
      ground (arith, init_pages-base s₁, init_mapping-CanGrow (init_pages os request s₁).1)

  body-CanGrow : Triple CanGrow (init_body os request info) CanGrow
  unfolding init_body
  body-CanGrow =
      Triple-then (SameSize-CanGrow (init_code os request) (init_code-SameSize os request info)) (
        Triple-then (record { leaves = λ s can h. init_memory-CanGrow s can })
          (Triple-then
            (SameSize-CanGrow (init_globals os request) (init_globals-SameSize os request info))
            (Triple-then
              (SameSize-CanGrow (init_imports os request info)
                (init_imports-SameSize os request info))
              (Triple-then
                (SameSize-CanGrow (init_sigindices os request)
                  (init_sigindices-SameSize os request info))
                (Triple-then
                  (SameSize-CanGrow (init_table os request) (init_table-SameSize os request info))
                  (SameSize-CanGrow (init_stack os request)
                    (init_stack-SameSize os request info)))))))

-- When `init_execution_engine` returns 0, the address space has room after the start of the memory for
-- all the bytes that it can grow to.
pub init_execution_engine-CanGrow :
    (os : Kernel) (g : Registry) (info : ImportInfo ℕ) (request : LoadCodeRequest) (ee : Engine)
    (w : World)
    → HasRoom os
    → (init_execution_engine os g info request ee w).err ≡ 0
    → CanGrow (init_execution_engine os g info request ee w).ee
init_execution_engine-CanGrow os g info request ee w room h =
    (load_leaves os request CanGrow g info ee w
      (λ good. record {
        leaves = λ s e done. (body-CanGrow os room request info).leaves s (rw e (omega arith)) done;
      })
      h).2
