-- ===== src/Vm/Grow/Size.antt =====
-- `wasm_memory_grow` of vm.c keeps the memory within its bounds and grows it by what was asked, or not
-- at all.
use kernel_wasm.Base.{ℕ, ◌+◌, ◌-◌, ◌*◌, ◌/◌, ◌≤◌, ◌≡◌, ◌≢◌, ◌⊎◌, arith, neg, u32, u64}
use kernel_wasm.Kernel.{Kernel, World, page_size}
use kernel_wasm.Vm.Engine.{Engine, static_memory_available}
use kernel_wasm.Vm.Grow.{Grown, map_grown, use_pages, wasm_memory_grow}
use kernel_wasm.Vm.Pages.{Allocated, alloc_pages}

-- The bound is what the pages back, and within the part of the area that may be used.
pub record IsSized (ee : Engine) : Type 0 where
  pub backed : ee.ctx.memory_bound ≡ ee.memory_page_count * page_size
  pub available : ee.ctx.memory_bound ≤ static_memory_available

-- A growth by `delta` bytes that succeeds returns the old size in WebAssembly pages; one that fails
-- returns -1 and leaves the size.
abbrev pub Outcome : (delta : ℕ) → Engine → Grown → Type 0
Outcome delta ee g =
    ((g.ret ≡ ee.ctx.memory_bound / 65536)
      × (g.ee.ctx.memory_bound ≡ ee.ctx.memory_bound + delta)
      × (ee.ctx.memory_bound + delta ≤ static_memory_available))
    ⊎ ((g.ret ≡ neg 1)
        × (g.ee.ctx.memory_bound ≡ ee.ctx.memory_bound)
        × (g.ee.memory_page_count ≡ ee.memory_page_count))

module _ (os : Kernel) (delta new : ℕ) (ee : Engine) (w : World) where
  map_grown-Outcome :
      IsSized ee
      → ee.ctx.memory_bound + delta ≤ static_memory_available
      → new * page_size ≡ ee.ctx.memory_bound + delta
      → Outcome delta ee (map_grown os delta new ee w) × IsSized (map_grown os delta new ee w).ee
  unfolding map_grown
  map_grown-Outcome sized fits whole = ground arith

use_pages-Outcome :
    (os : Kernel) (delta new : ℕ) (ee : Engine) (r : Allocated)
    → IsSized ee
    → ee.ctx.memory_bound + delta ≤ static_memory_available
    → new * page_size ≡ ee.ctx.memory_bound + delta
    → Outcome delta ee (use_pages os delta new ee r) × IsSized (use_pages os delta new ee r).ee
unfolding use_pages
use_pages-Outcome os delta new ee r sized fits whole =
    ground
      (arith, map_grown-Outcome os delta new (record ee { memory_page = r.memory_page }) r.world)

-- In an engine with a memory whose size its pages back and which is within `STATIC_MEMORY_AVAILABLE`,
-- `wasm_memory_grow` either returns the old size in WebAssembly pages and adds 65536 bytes for each page
-- that was asked for, up to that limit, or returns -1 and leaves the size and the page count; in both
-- cases the pages back the size and the limit is kept.
pub wasm_memory_grow_lem :
    (os : Kernel) (pages : ℕ) (ee : Engine) (w : World)
    → IsSized ee
    → ee.ctx.memory_base ≢ 0
    → Outcome (u32 pages * 65536) ee (wasm_memory_grow os pages ee w)
      × IsSized (wasm_memory_grow os pages ee w).ee
unfolding wasm_memory_grow
wasm_memory_grow_lem os pages ee w sized present =
    let delta = u64 (u32 pages * 65536) in
    let new = u64 (ee.ctx.memory_bound + delta) / page_size in
    let count = ee.memory_page_count in
    ground (
      arith,
      use_pages-Outcome os delta new ee (alloc_pages os (new - count) count ee.memory_page w),
    )
