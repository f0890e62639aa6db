-- ===== src/Vm/Load.antt =====
-- vm.c: the cleanup behind `fail`, `destroy_execution_engine`, and `init_execution_engine` as a whole.
use kernel_wasm.Base.{ℕ, ◌*◌, ◌/◌, Bool, false, ◌||◌, ◌==◌, ltb, if◌then◌else◌, not, neg}
use kernel_wasm.Kernel.{Kernel, World, Event, emit, virt, area, einval, page_size}
use kernel_wasm.Kapi.Info.{ImportInfo}
use kernel_wasm.Kapi.Registry.{Registry, get_module_resolver}
use kernel_wasm.Kapi.Resolver.{release_module_resolver}
use kernel_wasm.Vm.Engine.{
  Engine, LoadCodeRequest, zeroed, stack_guard_size, max_code_size, max_memory_size,
  max_global_count, max_import_count, max_dynamic_sigindice_count, max_table_count,
}
use kernel_wasm.Vm.Pages.{free_pages}
use kernel_wasm.Vm.Setup.{Setup, Flow, go, stop}
use kernel_wasm.Vm.Init.{init_body}

-- What `init_execution_engine` returns and leaves: the error or 0, the engine and the world.
pub record Loaded : Type 0 where
  pub err : ℕ
  pub ee : Engine
  pub world : World

-- The limits on a request.
unfoldable pub is_refused : LoadCodeRequest → Bool
is_refused r =
    r.code_len == 0
    || ltb max_code_size r.code_len
    || ltb max_memory_size r.memory_len
    || ltb max_global_count r.global_count
    || ltb max_import_count r.imported_func_count
    || ltb max_dynamic_sigindice_count r.dynamic_sigindice_count
    || ltb max_table_count r.table_count

module _ (os : Kernel) where
  -- The block `if(ee->memory_pages) { … }`; after a page could not be allocated nothing is unmapped.
  unfoldable pub free_memory : (unmapped : Bool) → Engine → World → World
  free_memory unmapped ee w =
      if ee.memory_pages == 0
      then w
      else let base = os.area_addr ee.static_memory_vm in
        let w₁ =
          if unmapped then w else emit (Event.unmap base (ee.memory_page_count * page_size)) w in
        emit (Event.free virt ee.memory_pages) (free_pages ee.memory_page_count 0 ee.memory_page w₁)

  -- The rest of the cleanup up to the code. `vfree(NULL)` does nothing.
  unfoldable pub free_arrays : Engine → World → World
  free_arrays ee w =
      let w₁ =
        if ee.static_memory_vm == 0 then w else emit (Event.free area ee.static_memory_vm) w in
      let w₂ = emit (Event.free virt ee.stack_backing) w₁ in
      let w₃ = emit (Event.free virt ee.table_base) w₂ in
      let w₄ = emit (Event.free virt ee.dynamic_sigindices) w₃ in
      let w₅ = emit (Event.free virt ee.imported_funcs) w₄ in
      let w₆ = emit (Event.free virt ee.local_global_backing) w₅ in
      let w₇ = emit (Event.free virt ee.local_global_ptr_backing) w₆ in
      emit (Event.free virt ee.code) w₇

  -- The cleanup behind `fail`, and of `destroy_execution_engine` but for the stack guard.
  unfoldable pub cleanup : (unmapped : Bool) → Engine → World → World
  cleanup unmapped ee w =
      release_module_resolver ee.resolver (free_arrays ee (free_memory unmapped ee w))

  -- `destroy_execution_engine`.
  unfoldable pub destroy_execution_engine : Engine → World → World
  destroy_execution_engine ee w =
      cleanup false ee (emit (Event.set_rw ee.stack_begin (stack_guard_size / 4096)) w)

  -- `return 0`, or what stands behind `fail`.
  unfoldable pub conclude : Flow (Unit {0}) × Setup → Loaded
  conclude (go t, s) = record { err = 0; ee = s.ee; world = s.world }
  conclude (stop err, s) = record {
    err = err;
    ee = s.ee;
    world = cleanup s.pages_allocated_without_mapping s.ee s.world;
  }

  -- `init_execution_engine` on the engine of a session; `info` as in `init_imports`.
  unfoldable pub init_execution_engine :
      Registry → ImportInfo ℕ → LoadCodeRequest → Engine → World → Loaded
  init_execution_engine g info request ee w =
      if is_refused request
      then record { err = neg einval; ee = ee; world = w }
      else let r = get_module_resolver os g w in
        if not (r.0.0 == 0)
        then record { err = r.0.0; ee = zeroed r.0.1; world = r.1 }
        else conclude (
            init_body os request info
              (record { ee = zeroed r.0.1; world = r.1; pages_allocated_without_mapping = false }))
