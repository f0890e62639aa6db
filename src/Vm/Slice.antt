-- ===== src/Vm/Slice.antt =====
-- What `vmctx_get_memory_slice` of vm.h promises to the host functions.
use kernel_wasm.Base.{ℕ, ◌+◌, ◌^◌, ◌≤◌, ◌<◌, ◌≡◌, ◌⊎◌, Bool, ◌&&◌, ltb, leb, u32, arith}
use kernel_wasm.Vm.Context.{Vmctx, vmctx_get_memory_slice}

-- The memory lies inside the 64-bit address space.
abbrev pub IsPlaced : Vmctx → Type 0
IsPlaced ctx = ctx.memory_base + ctx.memory_bound < 2 ^ 64

-- The address is one of the linear memory's.
abbrev pub inside : Vmctx → ℕ → Bool
inside ctx a = leb ctx.memory_base a && ltb a (ctx.memory_base + ctx.memory_bound)

-- In a placed memory the slice is granted just if it starts below the bound and ends at or below
-- it, at the base plus the offset, and is NULL otherwise.
pub get_memory_slice_lem :
    (ctx : Vmctx) (offset len : ℕ)
    → IsPlaced ctx
    → ((u32 offset < ctx.memory_bound)
        × (u32 offset + u32 len ≤ ctx.memory_bound)
        × (vmctx_get_memory_slice ctx offset len ≡ ctx.memory_base + u32 offset))
      ⊎ (((ctx.memory_bound ≤ u32 offset) ⊎ (ctx.memory_bound < u32 offset + u32 len))
          × (vmctx_get_memory_slice ctx offset len ≡ 0))
unfolding vmctx_get_memory_slice
get_memory_slice_lem ctx offset len placed = ground arith
