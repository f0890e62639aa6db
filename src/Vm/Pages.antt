-- ===== src/Vm/Pages.antt =====
-- vm.c: the loops that allocate and free the pages of the linear memory.
use kernel_wasm.Base.{ℕ, zero, suc, Option, none, some, ◌==◌, if◌then◌else◌, update}
use kernel_wasm.Kernel.{Kernel, World, Event, emit, page, page_size, call_alloc}

-- What the allocating loop leaves: the index at which `alloc_page` failed, if it did, the array
-- `memory_pages` and the world.
pub record Allocated : Type 0 where
  pub failed : Option ℕ
  pub memory_page : ℕ → ℕ
  pub world : World

-- `for(i = …; i < …; i++)` with `alloc_page`, up to the first failure.
unfoldable pub alloc_pages : Kernel → (left i : ℕ) → (ℕ → ℕ) → World → Allocated
alloc_pages os zero i pages w = record { failed = none; memory_page = pages; world = w }
alloc_pages os (suc left) i pages w =
    let r = call_alloc os page page_size w in
    let rest = alloc_pages os left (suc i) (update pages i r.0) r.1 in
    if r.0 == 0
    then record { failed = some i; memory_page = update pages i r.0; world = r.1 }
    else rest

-- `for(i = …; i < …; i++) __free_page(memory_pages[i])`.
unfoldable pub free_pages : (left i : ℕ) → (ℕ → ℕ) → World → World
free_pages zero i pages w = w
free_pages (suc left) i pages w = free_pages left (suc i) pages (emit (Event.free page (pages i)) w)

-- The stores of NULL beside it in `wasm_memory_grow`.
unfoldable pub clear_pages : (left i : ℕ) → (ℕ → ℕ) → ℕ → ℕ
clear_pages zero i pages = pages
clear_pages (suc left) i pages = clear_pages left (suc i) (update pages i 0)
