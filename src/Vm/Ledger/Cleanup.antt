-- ===== src/Vm/Ledger/Cleanup.antt =====
-- The cleanup behind `fail` and `destroy_execution_engine` free what the engine points to.
use kernel_wasm.Base.{ℕ, zero, suc, ◌+◌, ◌*◌, ◌≡◌, refl, ◌≢◌, Bool, arith, if◌then◌else◌, total}
use kernel_wasm.Kapi.Resolver.{ModuleResolver, release_loop, release_module_resolver}
use kernel_wasm.Kernel.{Kernel, Kind, virt, page, area, heap, World, Event, emit, page_size}
use kernel_wasm.Kernel.Ledger.{hit, hit_kind, hit-zero, allocs, frees}
use kernel_wasm.Vm.Engine.{Engine}
use kernel_wasm.Vm.Ledger.Owned.{owned}
use kernel_wasm.Vm.Ledger.Pages.{free_pages-page, free_pages-other, free_pages-allocs}
use kernel_wasm.Vm.Load.{free_memory, free_arrays, cleanup}

release_loop-log :
    (r : ModuleResolver) (kind : Kind) (p left i : ℕ) (w : World)
    → (allocs kind p (release_loop r left i w).log ≡ allocs kind p w.log)
      × (frees kind p (release_loop r left i w).log ≡ frees kind p w.log)
unfolding release_loop
release_loop-log r kind p zero i w = (refl, refl)
release_loop-log r kind p (suc left) i w =
    let inst = r.instances i in
    ground (
      arith,
      release_loop-log r kind p left (suc i)
          (if inst.release then emit (Event.released inst.private_data) w else w),
    )

module _ (os : Kernel) (p : ℕ) (used : p ≢ 0) (ee : Engine) where
  abbrev unmap : Bool → World → World
  unmap unmapped w =
      if unmapped
      then w
      else emit (Event.unmap (os.area_addr ee.static_memory_vm) (ee.memory_page_count * page_size))
          w

  free_memory-allocs :
      (kind : Kind) (unmapped : Bool) (w : World)
      → allocs kind p (free_memory os unmapped ee w).log ≡ allocs kind p w.log
  unfolding free_memory
  free_memory-allocs kind unmapped w =
      ground
        (arith, free_pages-allocs kind p ee.memory_page_count 0 ee.memory_page (unmap unmapped w))

  -- What the block of the pages frees.
  abbrev memory_part : Kind → ℕ
  memory_part virt = hit p ee.memory_pages
  memory_part page = owned page p ee
  memory_part _ = 0

  free_memory-frees :
      (kind : Kind) (unmapped : Bool) (w : World)
      → frees kind p (free_memory os unmapped ee w).log ≡ frees kind p w.log + memory_part kind
  unfolding free_memory total
  free_memory-frees page unmapped w = ground (
    arith,
    free_pages-page p ee.memory_page_count 0 ee.memory_page_count ee.memory_page (unmap unmapped w),
  )
  free_memory-frees kind unmapped w = ground (
    arith,
    hit-zero p,
    free_pages-other kind p ee.memory_page_count 0 ee.memory_page (unmap unmapped w) refl,
  )

  -- What `free_arrays` frees.
  abbrev rest_part : Kind → ℕ
  rest_part virt =
      hit p ee.code
      + hit p ee.local_global_ptr_backing
      + hit p ee.local_global_backing
      + hit p ee.imported_funcs
      + hit p ee.dynamic_sigindices
      + hit p ee.table_base
      + hit p ee.stack_backing
  rest_part page = 0
  rest_part area = hit p ee.static_memory_vm
  rest_part heap = 0

  release-log :
      (kind : Kind) (w : World)
      → (allocs kind p (release_module_resolver ee.resolver w).log ≡ allocs kind p w.log)
        × (frees kind p (release_module_resolver ee.resolver w).log
            ≡ frees kind p w.log + hit_kind kind p heap ee.resolver.resolvers)
  unfolding release_module_resolver
  release-log kind w =
      ground (arith, release_loop-log ee.resolver kind p ee.resolver.resolver_count 0 w)

  free_arrays-log :
      (kind : Kind) (w : World)
      → (allocs kind p (free_arrays os ee w).log ≡ allocs kind p w.log)
        × (frees kind p (free_arrays os ee w).log ≡ frees kind p w.log + rest_part kind)
  unfolding free_arrays
  free_arrays-log virt w = ground (arith, hit-zero p)
  free_arrays-log kind w = ground (arith, hit-zero p)

  -- After the cleanup everything that the engine pointed to is freed once more than before.
  pub cleanup-log :
      (kind : Kind) (unmapped : Bool) (w : World)
      → (allocs kind p (cleanup os unmapped ee w).log ≡ allocs kind p w.log)
        × (frees kind p (cleanup os unmapped ee w).log ≡ frees kind p w.log + owned kind p ee)
  unfolding cleanup
  cleanup-log virt unmapped w =
      let w₁ = free_memory os unmapped ee w in
      let w₂ = free_arrays os ee w₁ in
      omega (
        arith,
        free_memory-allocs virt unmapped w,
        free_memory-frees virt unmapped w,
        free_arrays-log virt w₁,
        release-log virt w₂,
      )
  cleanup-log kind unmapped w =
      let w₁ = free_memory os unmapped ee w in
      let w₂ = free_arrays os ee w₁ in
      omega (
        arith,
        free_memory-allocs kind unmapped w,
        free_memory-frees kind unmapped w,
        free_arrays-log kind w₁,
        release-log kind w₂,
      )
