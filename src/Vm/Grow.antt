-- ===== src/Vm/Grow.antt =====
-- vm.c: the intrinsics `wasm_memory_grow` and `wasm_memory_size`.
pub mod Size
pub mod Account
pub mod Frame
pub mod Lost
pub mod Stored
use kernel_wasm.Base.{
  ℕ, ◌+◌, ◌-◌, ◌*◌, ◌/◌, Option, none, some, not, ◌==◌, ltb, if◌then◌else◌, neg, u32, u64,
}
use kernel_wasm.Kernel.{Kernel, World, Event, emit, page_size, call_map}
use kernel_wasm.Vm.Engine.{Engine, static_memory_available}
use kernel_wasm.Vm.Pages.{Allocated, alloc_pages, free_pages, clear_pages}

-- What a call returns, as an `int32_t`, and leaves.
pub record Grown : Type 0 where
  pub ret : ℕ
  pub ee : Engine
  pub world : World

module _ (os : Kernel) where
  -- From the mapping on, once every page is allocated.
  unfoldable pub map_grown : (delta new_os_page_count : ℕ) → Engine → World → Grown
  map_grown delta new_os_page_count ee w =
      let old_size = ee.ctx.memory_bound in
      let start = os.area_addr ee.static_memory_vm + old_size in
      let (mapped, w₁) = call_map os start delta w in
      if not (mapped == delta / page_size)
      then record { ret = neg 1; ee = ee; world = w₁ }
      else record {
        ret = u32 (old_size / 65536);
        ee = record ee {
          memory_page_count = new_os_page_count;
          ctx = record ee.ctx { memory_bound = u64 (old_size + delta) };
        };
        world = emit (Event.flush start (start + delta)) w₁;
      }

  -- After the allocating loop: give the pages back if one could not be allocated.
  unfoldable pub use_pages : (delta new_os_page_count : ℕ) → Engine → Allocated → Grown
  use_pages delta new_os_page_count ee r =
      let count = ee.memory_page_count in
      elim r.failed [
        | some i ↦ record {
          ret = neg 1;
          ee = record ee { memory_page = clear_pages (i - count) count r.memory_page };
          world = free_pages (i - count) count r.memory_page r.world;
        }
        | none ↦
            map_grown delta new_os_page_count (record ee { memory_page = r.memory_page }) r.world
      ]

  -- `wasm_memory_grow`.
  unfoldable pub wasm_memory_grow : (pages : ℕ) → Engine → World → Grown
  wasm_memory_grow pages ee w =
      if ee.ctx.memory_base == 0
      then record { ret = neg 1; ee = ee; world = w }
      else let old_size = ee.ctx.memory_bound in
        if u32 pages == 0
        then record { ret = u32 (old_size / 65536); ee = ee; world = w }
        else let delta = u64 (u32 pages * 65536) in
          if ltb static_memory_available (u64 (old_size + delta))
          then record { ret = neg 1; ee = ee; world = w }
          else let new_os_page_count = u64 (old_size + delta) / page_size in
            let count = ee.memory_page_count in
            use_pages delta new_os_page_count ee
              (alloc_pages os (new_os_page_count - count) count ee.memory_page w)

-- `wasm_memory_size`.
unfoldable pub wasm_memory_size : Engine → ℕ
wasm_memory_size ee = if ee.ctx.memory_base == 0 then 0 else u32 (ee.ctx.memory_bound / 65536)
