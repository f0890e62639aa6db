-- ===== src/Vm/Grow/Frame.antt =====
-- vm.c: what `wasm_memory_grow` leaves alone.
use kernel_wasm.Base.{
  ℕ, zero, suc, ◌+◌, ◌-◌, ◌*◌, ◌/◌, ◌≡◌, refl, arith, u32, u64, update, ◌==◌, Option-cases,
  Bool-cases, inl, inr,
}
use kernel_wasm.Kernel.{Kernel, World, Event, emit, page, page_size, call_alloc}
use kernel_wasm.Vm.Engine.{Engine}
use kernel_wasm.Vm.Grow.{map_grown, use_pages, wasm_memory_grow}
use kernel_wasm.Vm.Pages.{Allocated, alloc_pages, free_pages}

-- The two engines differ at most in the bound of the memory and its pages.
abbrev pub SameCode : Engine → Engine → Type 0
SameCode ee ee' =
    (ee'.ctx.memory_base ≡ ee.ctx.memory_base)
    × (ee'.memory_pages ≡ ee.memory_pages)
    × (ee'.imported_func ≡ ee.imported_func)
    × (ee'.stack_backing ≡ ee.stack_backing)
    × (ee'.local_global_backing ≡ ee.local_global_backing)

pub alloc_pages-ram :
    (os : Kernel) (left i : ℕ) (pages : ℕ → ℕ) (w : World)
    → (alloc_pages os left i pages w).world.ram ≡ w.ram
unfolding alloc_pages
alloc_pages-ram os zero i pages w = refl
alloc_pages-ram os (suc left) i pages w =
    let r = call_alloc os page page_size w in
    let still = alloc_pages-ram os left (suc i) (update pages i r.0) r.1 in
    elim (Bool-cases (r.0 == 0)) [ inl null ↦ rw null refl | inr made ↦ rw made still ]

pub free_pages-ram :
    (left i : ℕ) (pages : ℕ → ℕ) (w : World) → (free_pages left i pages w).ram ≡ w.ram
unfolding free_pages
free_pages-ram zero i pages w = refl
free_pages-ram (suc left) i pages w =
    free_pages-ram left (suc i) pages (emit (Event.free page (pages i)) w)

use_pages-same :
    (os : Kernel) (delta new : ℕ) (ee : Engine) (r : Allocated)
    → SameCode ee (use_pages os delta new ee r).ee
      × ((use_pages os delta new ee r).world.ram ≡ r.world.ram)
unfolding use_pages map_grown
use_pages-same os delta new ee r =
    let count = ee.memory_page_count in
    elim (Option-cases r.failed) [
      | inl all ↦ rw (all, use_pages) (ground arith)
      | inr (i, e) ↦
          rw (e, use_pages)
            ((refl, refl, refl, refl, refl), free_pages-ram (i - count) count r.memory_page r.world)
    ]

-- A growth changes neither where the memory starts nor the code's imports, stack and globals, and it
-- writes no byte.
pub wasm_memory_grow-same :
    (os : Kernel) (pages : ℕ) (ee : Engine) (w : World)
    → SameCode ee (wasm_memory_grow os pages ee w).ee
      × ((wasm_memory_grow os pages ee w).world.ram ≡ w.ram)
unfolding wasm_memory_grow
wasm_memory_grow-same os pages ee w =
    let delta = u64 (u32 pages * 65536) in
    let new = u64 (ee.ctx.memory_bound + delta) / page_size in
    let count = ee.memory_page_count in
    let r = alloc_pages os (new - count) count ee.memory_page w in
    ground (
      arith,
      use_pages-same os delta new ee r,
      alloc_pages-ram os (new - count) count ee.memory_page w,
    )
