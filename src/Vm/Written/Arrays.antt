-- ===== src/Vm/Written/Arrays.antt =====
-- vm.c: the arrays of an engine, which stand beside the bytes: how large each was allocated, and which
-- entries `init_execution_engine` stores, also where it fails.
use kernel_wasm.Base.{
  ℕ, zero, suc, ◌+◌, ◌*◌, ◌/◌, ◌<◌, ◌≡◌, refl, ◌⊎◌, inl, inr, Option, none, some, arith, ◌==◌,
  Bool-cases, Option-cases, update, ◌∷◌, ◌∙◌, if◌then◌else◌, u64,
}
use kernel_wasm.Kapi.Info.{ImportInfo}
use kernel_wasm.Kapi.Resolver.{ModuleResolver, resolve_import}
use kernel_wasm.Kernel.{Kernel, World, TableEntryRequest, Event, virt, page, page_size, call_alloc}
use kernel_wasm.Layout.{size_of}
use kernel_wasm.Layout.Shared.{Shared, ctype}
use kernel_wasm.Vm.Engine.{Engine, LoadCodeRequest, Anyfunc, static_memory_available}
use kernel_wasm.Vm.Init.{
  terminate, init_code, init_pages, init_mapping, init_globals, import_loop, init_imports,
  init_sigindices, table_loop, init_table, init_stack,
}
use kernel_wasm.Vm.Pages.{alloc_pages}
use kernel_wasm.Vm.Setup.{Setup}

-- `p` is NULL or was returned by an allocation of `bytes` bytes.
abbrev pub HasRoomOf : Kernel → (bytes p : ℕ) → Type 0
HasRoomOf os bytes p = (p ≡ 0) ⊎ ((w : World) × (os.allocate w virt bytes ≡ p))

module _ (os : Kernel) (request : LoadCodeRequest) (j : ℕ) where
  abbrev pub TableFits : Engine → Type 0
  TableFits ee =
      HasRoomOf os (size_of (ctype Shared.anyfunc) * request.table_count) ee.table_base
      × ((j < request.table_count) ⊎ (ee.table j ≡ record { func = 0; sig_id = 0 }))

  abbrev pub ImportsFit : Engine → Type 0
  ImportsFit ee =
      HasRoomOf os (size_of (ctype Shared.imported_func) * request.imported_func_count)
        ee.imported_funcs
      × ((j < request.imported_func_count) ⊎ (ee.imported_func j ≡ none))

  abbrev pub PointersFit : Engine → Type 0
  PointersFit ee =
      HasRoomOf os (8 * request.global_count) ee.local_global_ptr_backing
      × ((j < request.global_count) ⊎ (ee.local_global_ptr j ≡ 0))

  abbrev pub PagesFit : Engine → Type 0
  PagesFit ee =
      HasRoomOf os (8 * (static_memory_available / page_size)) ee.memory_pages
      × ((j < static_memory_available / page_size) ⊎ (ee.memory_page j ≡ 0))

  -- Each array was allocated with room for the entries that were asked for, for the pages with room for
  -- the largest memory, and the entry `j`, if it is past these, was not stored.
  pub record ArraysFit (ee : Engine) : Type 0 where
    pub table : TableFits ee
    pub imports : ImportsFit ee
    pub pointers : PointersFit ee
    pub pages : PagesFit ee

  -- One round more of a loop that stores entry after entry.
  round_past {ℓ} :
      {A : Type ℓ} (i left : ℕ) (array : ℕ → A) (x : A) (after : A)
      → (j < suc i + left) ⊎ (after ≡ update array i x j)
      → (j < i + suc left) ⊎ (after ≡ array j)
  round_past i left array x after h = elim (Bool-cases (j == i)) [
    | inl same ↦ inl (ground arith)
    | inr other ↦ elim h [ inl lt ↦ inl (omega arith) | inr e ↦ inr (e ∙ ground arith) ]
  ]

  abbrev entered : (code : ℕ) → TableEntryRequest → Anyfunc
  entered code req = record {
    func = if req.offset == 0xffff_ffff_ffff_ffff then 0 else u64 (code + req.offset);
    sig_id = req.sig_id;
  }

  pub table_loop-past :
      (code : ℕ) (w : World) (left i : ℕ) (table : ℕ → Anyfunc)
      → (j < i + left) ⊎ ((table_loop os request code w left i table).1 j ≡ table j)
  unfolding table_loop
  table_loop-past code w zero i table = inr refl
  table_loop-past code w (suc left) i table =
      elim (Option-cases (os.table_entry_request w (request.table + 16 * i))) [
        | inl fault ↦ rw (fault, table_loop) (inr refl)
        | inr (req, e) ↦
            let later = update table i (entered code req) in
            rw (e, table_loop)
              (round_past i left table (entered code req)
                ((table_loop os request code w left (suc i) later).1 j)
                (table_loop-past code w left (suc i) later))
      ]

  pub import_loop-past :
      (r : ModuleResolver) (w : World) (info : ImportInfo ℕ) (left i : ℕ) (funcs : ℕ → Option ℕ)
      → (j < i + left) ⊎ ((import_loop os request r w info left i funcs).1 j ≡ funcs j)
  unfolding import_loop
  import_loop-past r w info zero i funcs = inr refl
  import_loop-past r w info (suc left) i funcs =
      elim (Option-cases (os.import_request w (request.imported_funcs + 68 * i))) [
        | inl fault ↦ rw (fault, import_loop) (inr refl)
        | inr (req, e) ↦
            elim (Option-cases (resolve_import r (terminate 63 req.name) req.param_count info)) [
              | inl unknown ↦
                  rw (e, import_loop)
                    (rw (unknown, import_loop)
                      (round_past i left funcs none (update funcs i none j) (inr refl)))
              | inr (f, known) ↦
                  let later = update funcs i (some f) in
                  rw (e, import_loop)
                    (rw (known, import_loop)
                      (round_past i left funcs (some f)
                        ((import_loop os request r w info left (suc i) later).1 j)
                        (import_loop-past r w info left (suc i) later)))
            ]
      ]

  pub alloc_pages-past :
      (left i : ℕ) (pages : ℕ → ℕ) (w : World)
      → (j < i + left) ⊎ ((alloc_pages os left i pages w).memory_page j ≡ pages j)
  unfolding alloc_pages
  alloc_pages-past zero i pages w = inr refl
  alloc_pages-past (suc left) i pages w =
      let q = os.allocate w page 4096 in
      ground (
        arith,
        alloc_pages-past left (suc i) (update pages i q)
            (record w { log = Event.alloc page q ∷ w.log }),
      )

  -- The fields of the arrays.
  abbrev pub SameTable : Engine → Engine → Type 0
  SameTable ee ee' = (ee'.table_base ≡ ee.table_base) × (ee'.table ≡ ee.table)

  abbrev pub SameImports : Engine → Engine → Type 0
  SameImports ee ee' =
      (ee'.imported_funcs ≡ ee.imported_funcs) × (ee'.imported_func ≡ ee.imported_func)

  abbrev pub SamePointers : Engine → Engine → Type 0
  SamePointers ee ee' =
      (ee'.local_global_ptr_backing ≡ ee.local_global_ptr_backing)
      × (ee'.local_global_ptr ≡ ee.local_global_ptr)

  abbrev pub SamePages : Engine → Engine → Type 0
  SamePages ee ee' = (ee'.memory_pages ≡ ee.memory_pages) × (ee'.memory_page ≡ ee.memory_page)

  module _ (info : ImportInfo ℕ) (s : Setup) where
    pub code-same :
        SameTable s.ee (init_code os request s).1.ee
        × SameImports s.ee (init_code os request s).1.ee
        × SamePointers s.ee (init_code os request s).1.ee
        × SamePages s.ee (init_code os request s).1.ee
    unfolding init_code
    code-same = ground arith

    pub pages-same :
        SameTable s.ee (init_pages os request s).1.ee
        × SameImports s.ee (init_pages os request s).1.ee
        × SamePointers s.ee (init_pages os request s).1.ee
    unfolding init_pages
    pages-same = ground arith

    pub mapping-same :
        SameTable s.ee (init_mapping os request s).1.ee
        × SameImports s.ee (init_mapping os request s).1.ee
        × SamePointers s.ee (init_mapping os request s).1.ee
        × SamePages s.ee (init_mapping os request s).1.ee
    unfolding init_mapping
    mapping-same = ground arith

    pub globals-same :
        SameTable s.ee (init_globals os request s).1.ee
        × SameImports s.ee (init_globals os request s).1.ee
        × SamePages s.ee (init_globals os request s).1.ee
    unfolding init_globals
    globals-same = ground arith

    pub imports-same :
        SameTable s.ee (init_imports os request info s).1.ee
        × SamePointers s.ee (init_imports os request info s).1.ee
        × SamePages s.ee (init_imports os request info s).1.ee
    unfolding init_imports
    imports-same = ground arith

    pub sigindices-same :
        SameTable s.ee (init_sigindices os request s).1.ee
        × SameImports s.ee (init_sigindices os request s).1.ee
        × SamePointers s.ee (init_sigindices os request s).1.ee
        × SamePages s.ee (init_sigindices os request s).1.ee
    unfolding init_sigindices
    sigindices-same = ground arith

    pub table-same :
        SameImports s.ee (init_table os request s).1.ee
        × SamePointers s.ee (init_table os request s).1.ee
        × SamePages s.ee (init_table os request s).1.ee
    unfolding init_table
    table-same = ground arith

    pub stack-same :
        SameTable s.ee (init_stack os request s).1.ee
        × SameImports s.ee (init_stack os request s).1.ee
        × SamePointers s.ee (init_stack os request s).1.ee
        × SamePages s.ee (init_stack os request s).1.ee
    unfolding init_stack
    stack-same = ground arith

    -- What a stage leaves of its own array: all as it was, or the array allocated and the loop run or not.
    pub table-cases :
        SameTable s.ee (init_table os request s).1.ee
        ⊎ (((init_table os request s).1.ee.table_base
              ≡ os.allocate s.world virt (24 * request.table_count))
            × (((init_table os request s).1.ee.table ≡ s.ee.table)
                ⊎ ((init_table os request s).1.ee.table
                    ≡ (table_loop os request s.ee.code
                        (call_alloc os virt (24 * request.table_count) s.world).1
                        request.table_count
                        0
                        s.ee.table).1)))
    unfolding init_table
    table-cases = ground arith

    pub imports-cases :
        SameImports s.ee (init_imports os request info s).1.ee
        ⊎ (((init_imports os request info s).1.ee.imported_funcs
              ≡ os.allocate s.world virt (16 * request.imported_func_count))
            × (((init_imports os request info s).1.ee.imported_func ≡ s.ee.imported_func)
                ⊎ ((init_imports os request info s).1.ee.imported_func
                    ≡ (import_loop os request s.ee.resolver
                        (call_alloc os virt (16 * request.imported_func_count) s.world).1
                        info
                        request.imported_func_count
                        0
                        s.ee.imported_func).1)))
    unfolding init_imports
    imports-cases = ground arith

    pub globals-cases :
        SamePointers s.ee (init_globals os request s).1.ee
        ⊎ (((init_globals os request s).1.ee.local_global_ptr_backing
              ≡ os.allocate s.world virt (8 * request.global_count))
            × ((j < request.global_count)
                ⊎ ((init_globals os request s).1.ee.local_global_ptr j ≡ s.ee.local_global_ptr j)))
    unfolding init_globals
    globals-cases = ground arith

    pub init_pages-cases :
        SamePages s.ee (init_pages os request s).1.ee
        ⊎ (((init_pages os request s).1.ee.memory_pages ≡ s.ee.memory_pages)
            × ((j < s.ee.memory_page_count)
                ⊎ ((init_pages os request s).1.ee.memory_page j ≡ s.ee.memory_page j)))
    unfolding init_pages
    init_pages-cases =
        ground (arith, alloc_pages-past s.ee.memory_page_count 0 s.ee.memory_page s.world)
