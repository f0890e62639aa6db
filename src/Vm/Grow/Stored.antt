-- ===== src/Vm/Grow/Stored.antt =====
-- `wasm_memory_grow` of vm.c: the entries of the page array that it stores.
use kernel_wasm.Base.{
  ℕ, zero, suc, ◌+◌, ◌-◌, ◌*◌, ◌/◌, ◌<◌, ◌≡◌, refl, ◌⊎◌, inl, inr, some, ◌∷◌, arith, u32, u64,
  update, Option-cases,
}
use kernel_wasm.Kernel.{Kernel, World, Event, page, page_size}
use kernel_wasm.Vm.Engine.{Engine, LoadCodeRequest, static_memory_available}
use kernel_wasm.Vm.Grow.{map_grown, use_pages, wasm_memory_grow}
use kernel_wasm.Vm.Pages.{alloc_pages, clear_pages}
use kernel_wasm.Vm.Sized.{IsBacked}
use kernel_wasm.Vm.Written.Arrays.{
  ArraysFit, SameTable, SameImports, SamePointers, alloc_pages-past,
}

-- The two engines differ at most in the bound of the memory, the count and the entries of the pages.
abbrev SameArrays : Kernel → LoadCodeRequest → ℕ → Engine → Engine → Type 0
SameArrays os request j ee ee' =
    SameTable os request j ee ee'
    × SameImports os request j ee ee'
    × SamePointers os request j ee ee'
    × (ee'.memory_pages ≡ ee.memory_pages)

clear_pages-past :
    (j left i : ℕ) (pages : ℕ → ℕ) → (j < i + left) ⊎ (clear_pages left i pages j ≡ pages j)
unfolding clear_pages
clear_pages-past j zero i pages = inr refl
clear_pages-past j (suc left) i pages =
    ground (arith, clear_pages-past j left (suc i) (update pages i 0))

alloc_pages-stop :
    (os : Kernel) (left i k : ℕ) (pages : ℕ → ℕ) (w : World)
    → (alloc_pages os left i pages w).failed ≡ some k
    → k < i + left
unfolding alloc_pages
alloc_pages-stop os zero i k pages w e = cc
alloc_pages-stop os (suc left) i k pages w e =
    let q = os.allocate w page 4096 in
    ground (
      arith,
      alloc_pages-stop os left (suc i) k (update pages i q)
          (record w { log = Event.alloc page q ∷ w.log }),
    )

module _ (os : Kernel) (request : LoadCodeRequest) (j : ℕ) where
  -- The entries from the count on up to the new count.
  use_pages-past :
      (left delta new : ℕ) (ee : Engine) (w : World)
      → let r = alloc_pages os left ee.memory_page_count ee.memory_page w in
        let ee' = (use_pages os delta new ee r).ee in
        SameArrays os request j ee ee'
        × ((j < ee.memory_page_count + left) ⊎ (ee'.memory_page j ≡ ee.memory_page j))
  unfolding use_pages map_grown
  use_pages-past left delta new ee w =
      let count = ee.memory_page_count in
      let r = alloc_pages os left count ee.memory_page w in
      let past = alloc_pages-past os request j left count ee.memory_page w in
      elim (Option-cases r.failed) [
        | inl all ↦ rw (all, use_pages) (ground arith)
        | inr (i, e) ↦
            let stop = alloc_pages-stop os left count i ee.memory_page w e in
            let cleared = clear_pages-past j (i - count) count r.memory_page in
            rw (e, use_pages) (((refl, refl), (refl, refl), (refl, refl), refl), ground arith)
      ]

  wasm_memory_grow-past :
      (pages : ℕ) (ee : Engine) (w : World)
      → IsBacked ee
      → SameArrays os request j ee (wasm_memory_grow os pages ee w).ee
        × ((j < static_memory_available / page_size)
            ⊎ ((wasm_memory_grow os pages ee w).ee.memory_page j ≡ ee.memory_page j))
  unfolding wasm_memory_grow
  wasm_memory_grow-past pages ee w b =
      let sized = b.sized in
      let backed = sized.backed in
      let available = sized.available in
      let delta = u64 (u32 pages * 65536) in
      let new = u64 (ee.ctx.memory_bound + delta) / page_size in
      let count = ee.memory_page_count in
      ground (arith, use_pages-past (new - count) delta new ee w)

  -- A growth keeps the arrays in bounds.
  pub wasm_memory_grow-ArraysFit :
      (pages : ℕ) (ee : Engine) (w : World)
      → IsBacked ee
      → ArraysFit os request j ee
      → ArraysFit os request j (wasm_memory_grow os pages ee w).ee
  wasm_memory_grow-ArraysFit pages ee w b f =
      let (((t, t'), (i, i'), (p, p'), array), entry) = wasm_memory_grow-past pages ee w b in
      let (room, past) = f.pages in
      record {
        table = rw (t, t') f.table;
        imports = rw (i, i') f.imports;
        pointers = rw (p, p') f.pointers;
        pages = (rw array room, ground arith);
      }
