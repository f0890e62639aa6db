-- ===== src/Vm/Sized.antt =====
-- vm.c: the size of the memory that `init_execution_engine` leaves.
pub mod Placed
use kernel_wasm.Base.{
  ℕ, ◌*◌, ◌/◌, ◌%◌, ◌≤◌, ◌≡◌, refl, ◌≢◌, ◌⊎◌, inl, inr, false, arith, Option-cases,
}
use kernel_wasm.Kapi.Info.{ImportInfo}
use kernel_wasm.Kapi.Registry.{Registry}
use kernel_wasm.Kernel.{Kernel, World, virt, area, call_alloc, page_size}
use kernel_wasm.Vm.Engine.{
  Engine, LoadCodeRequest, zeroed, max_memory_size, static_memory_size, static_memory_available,
}
use kernel_wasm.Vm.Grow.Size.{IsSized}
use kernel_wasm.Vm.Init.{
  init_body, init_code, init_pages, init_mapping, init_memory, init_globals, init_imports,
  init_sigindices, init_table, init_stack,
}
use kernel_wasm.Vm.Load.{is_refused, init_execution_engine}
use kernel_wasm.Vm.Setup.{Setup, Stage, go}
use kernel_wasm.Kapi.Resolver.{ModuleResolver}
use kernel_wasm.Vm.Triple.{Triple, Triple-then, load_leaves}
use kernel_wasm.Vm.Pages.{Allocated, alloc_pages}

-- The pages back the bound, and there is a page array if there is a memory.
pub record IsBacked (ee : Engine) : Type 0 where
  pub sized : IsSized ee
  pub paged : (ee.ctx.memory_base ≡ 0) ⊎ (ee.memory_pages ≢ 0)

-- The fields that a stage other than the memory's leaves alone.
abbrev pub SameSize : Engine → Engine → Type 0
SameSize ee ee' =
    (ee'.ctx.memory_bound ≡ ee.ctx.memory_bound)
    × (ee'.memory_page_count ≡ ee.memory_page_count)
    × (ee'.ctx.memory_base ≡ ee.ctx.memory_base)
    × (ee'.memory_pages ≡ ee.memory_pages)

IsBacked-SameSize : (ee ee' : Engine) → SameSize ee ee' → IsBacked ee → IsBacked ee'
IsBacked-SameSize ee ee' same backed = let sized = backed.sized in ground arith

-- A stage that leaves the memory backed if it was.
abbrev Sizes : Stage → Type 0
Sizes m = Triple IsBacked m IsBacked

module _ (os : Kernel) (request : LoadCodeRequest) (info : ImportInfo ℕ) where
  pub init_code-SameSize : (s : Setup) → SameSize s.ee (init_code os request s).1.ee
  unfolding init_code
  init_code-SameSize s = ground arith

  pub init_globals-SameSize : (s : Setup) → SameSize s.ee (init_globals os request s).1.ee
  unfolding init_globals
  init_globals-SameSize s = ground arith

  pub init_imports-SameSize : (s : Setup) → SameSize s.ee (init_imports os request info s).1.ee
  unfolding init_imports
  init_imports-SameSize s = ground arith

  pub init_sigindices-SameSize : (s : Setup) → SameSize s.ee (init_sigindices os request s).1.ee
  unfolding init_sigindices
  init_sigindices-SameSize s = ground arith

  pub init_table-SameSize : (s : Setup) → SameSize s.ee (init_table os request s).1.ee
  unfolding init_table
  init_table-SameSize s = ground arith

  pub init_stack-SameSize : (s : Setup) → SameSize s.ee (init_stack os request s).1.ee
  unfolding init_stack
  init_stack-SameSize s = ground arith

  init_pages-size :
      (s : Setup)
      → (init_pages os request s).0 ≡ go tt
      → SameSize s.ee (init_pages os request s).1.ee
  unfolding init_pages
  init_pages-size s h = elim (Option-cases r.failed) [
    | inl all ↦ rw (all, init_pages) (refl, refl, refl, refl)
    | inr (i, e) ↦ absurd (ground (arith, rw (e, init_pages) at h))
  ]
    where
      r : Allocated
      r = alloc_pages os s.ee.memory_page_count 0 s.ee.memory_page s.world

  init_mapping-IsBacked :
      (s : Setup)
      → request.memory_len ≤ max_memory_size
      → request.memory_len ≡ s.ee.memory_page_count * page_size
      → s.ee.memory_pages ≢ 0
      → (init_mapping os request s).0 ≡ go tt
      → IsBacked (init_mapping os request s).1.ee
  unfolding init_mapping
  init_mapping-IsBacked s small whole paged h = ground arith

  -- The engine before the pages are allocated.
  abbrev pub prepared : Setup → Setup
  prepared s =
      let (vm, w₁) = call_alloc os area static_memory_size s.world in
      let (array, w₂) = call_alloc os virt (8 * (static_memory_available / page_size)) w₁ in
      record s {
        ee = record s.ee {
          static_memory_vm = vm;
          memory_page_count = request.memory_len / page_size;
          memory_pages = array;
          memory_page = λ i. 0;
        };
        world = w₂;
      }

  init_memory-IsBacked :
      (s : Setup)
      → request.memory_len ≤ max_memory_size
      → request.memory_len % page_size ≡ 0
      → IsBacked s.ee
      → (init_memory os request s).0 ≡ go tt
      → IsBacked (init_memory os request s).1.ee
  unfolding init_memory
  init_memory-IsBacked s small whole sized h =
      let s₁ = prepared s in
      ground (arith, init_pages-size s₁, init_mapping-IsBacked (init_pages os request s₁).1 small)

  SameSize-Sizes : (m : Stage) → ((s : Setup) → SameSize s.ee (m s).1.ee) → Sizes m
  SameSize-Sizes m same = record {
    leaves = λ s sized h. IsBacked-SameSize s.ee (m s).1.ee (same s) sized;
  }

  body-Sizes :
      request.memory_len ≤ max_memory_size
      → request.memory_len % page_size ≡ 0
      → Sizes (init_body os request info)
  unfolding init_body
  body-Sizes small whole = Triple-then (SameSize-Sizes (init_code os request) init_code-SameSize) (
      Triple-then (record { leaves = λ s. init_memory-IsBacked s small whole })
        (Triple-then (SameSize-Sizes (init_globals os request) init_globals-SameSize) (
          Triple-then (SameSize-Sizes (init_imports os request info) init_imports-SameSize) (
            Triple-then (SameSize-Sizes (init_sigindices os request) init_sigindices-SameSize) (
              Triple-then (SameSize-Sizes (init_table os request) init_table-SameSize)
                (SameSize-Sizes (init_stack os request) init_stack-SameSize))))))

pub small_lem :
    (request : LoadCodeRequest) → is_refused request ≡ false → request.memory_len ≤ max_memory_size
unfolding is_refused
small_lem request good = ground arith

-- The engine that the body starts from.
zeroed-IsBacked : (r : ModuleResolver) (ee : Engine) → ee ≡ zeroed r → IsBacked ee
zeroed-IsBacked r ee e =
    rw e record { sized = record { backed = refl; available = omega arith }; paged = inl refl }

-- When `init_execution_engine` returns 0 for a memory whose length is a multiple of the page size, the
-- pages that it allocates back just the bound of the memory, and the bound is within
-- `STATIC_MEMORY_AVAILABLE`, as `wasm_memory_grow` needs it.
pub init_execution_engine-IsBacked :
    (os : Kernel) (g : Registry) (info : ImportInfo ℕ) (request : LoadCodeRequest) (ee : Engine)
    (w : World)
    → request.memory_len % page_size ≡ 0
    → (init_execution_engine os g info request ee w).err ≡ 0
    → IsBacked (init_execution_engine os g info request ee w).ee
init_execution_engine-IsBacked os g info request ee w whole h =
    (load_leaves os request IsBacked g info ee w
      (λ good. record {
        leaves = λ s e done.
            (body-Sizes os request info (small_lem request good) whole).leaves s
              (zeroed-IsBacked _ s.ee e) done;
      })
      h).2
