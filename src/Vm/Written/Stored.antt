-- ===== src/Vm/Written/Stored.antt =====
-- vm.c: what each stage of `init_execution_engine` stores to the arrays of the engine.
use kernel_wasm.Base.{ℕ, ◌*◌, ◌/◌, ◌≤◌, refl, sym, inl, inr, not, ◌&&◌, ◌==◌, Bool-cases, arith}
use kernel_wasm.Kapi.Info.{ImportInfo}
use kernel_wasm.Kernel.{Kernel, virt, area, page_size, call_alloc}
use kernel_wasm.Layout.{size_of, align_of, width, locate}
use kernel_wasm.Layout.Shared.{members_of}
use kernel_wasm.Vm.Engine.{
  Engine, LoadCodeRequest, static_memory_available, static_memory_size, max_memory_size,
}
use kernel_wasm.Vm.Init.{
  init_body, init_code, init_pages, init_mapping, init_memory, init_globals, init_imports,
  init_sigindices, init_table, init_stack,
}
use kernel_wasm.Vm.Setup.{Setup, Stage, Flow, go, stop, and_then, ◌>>◌}
use kernel_wasm.Vm.Sized.{prepared}
use kernel_wasm.Vm.Written.Arrays.{
  ArraysFit, TableFits, ImportsFit, PointersFit, PagesFit, SameTable, SameImports, SamePointers,
  SamePages, code-same, pages-same, mapping-same, globals-same, imports-same, sigindices-same,
  table-same, stack-same, table-cases, imports-cases, globals-cases, init_pages-cases,
  table_loop-past, import_loop-past,
}

module _ (os : Kernel) (request : LoadCodeRequest) (info : ImportInfo ℕ) (j : ℕ) where
  abbrev Fits : Engine → Type 0
  Fits ee = ArraysFit os request j ee

  -- The four fields kept, the fit stays.
  table-stays :
      (ee ee' : Engine)
      → SameTable os request j ee ee'
      → TableFits os request j ee
      → TableFits os request j ee'
  table-stays ee ee' (base, array) fits = rw (base, array) fits

  imports-stay :
      (ee ee' : Engine)
      → SameImports os request j ee ee'
      → ImportsFit os request j ee
      → ImportsFit os request j ee'
  imports-stay ee ee' (base, array) fits = rw (base, array) fits

  pointers-stay :
      (ee ee' : Engine)
      → SamePointers os request j ee ee'
      → PointersFit os request j ee
      → PointersFit os request j ee'
  pointers-stay ee ee' (base, array) fits = rw (base, array) fits

  pages-stay :
      (ee ee' : Engine)
      → SamePages os request j ee ee'
      → PagesFit os request j ee
      → PagesFit os request j ee'
  pages-stay ee ee' (base, array) fits = rw (base, array) fits

  module _ (s : Setup) where
    table-TableFits :
        TableFits os request j s.ee → TableFits os request j (init_table os request s).1.ee
    unfolding members_of align_of size_of locate width
    table-TableFits (room, past) = elim (table-cases os request j info s) [
      | inl same ↦ table-stays s.ee (init_table os request s).1.ee same (room, past)
      | inr (made, array) ↦ (
        inr (s.world, sym made),
        elim array [
          | inl same ↦ rw same past
          | inr run ↦
              rw run
                (elim (table_loop-past os request j s.ee.code
                  (call_alloc os virt (24 * request.table_count) s.world).1 request.table_count 0
                  s.ee.table) [
                    | inl lt ↦ inl (omega arith)
                    | inr e ↦ (let past' = past in ground arith)
                  ])
        ],
      )
    ]

    imports-ImportsFit :
        ImportsFit os request j s.ee → ImportsFit os request j (init_imports os request info s).1.ee
    unfolding members_of align_of size_of locate width
    imports-ImportsFit (room, past) = elim (imports-cases os request j info s) [
      | inl same ↦ imports-stay s.ee (init_imports os request info s).1.ee same (room, past)
      | inr (made, array) ↦ (
        inr (s.world, sym made),
        elim array [
          | inl same ↦ rw same past
          | inr run ↦
              rw run
                (elim (import_loop-past os request j s.ee.resolver
                  (call_alloc os virt (16 * request.imported_func_count) s.world).1 info
                  request.imported_func_count 0 s.ee.imported_func) [
                    | inl lt ↦ inl (omega arith)
                    | inr e ↦ ground arith
                  ])
        ],
      )
    ]

    globals-PointersFit :
        PointersFit os request j s.ee → PointersFit os request j (init_globals os request s).1.ee
    globals-PointersFit (room, past) = elim (globals-cases os request j info s) [
      | inl same ↦ pointers-stay s.ee (init_globals os request s).1.ee same (room, past)
      | inr (made, entry) ↦ (inr (s.world, sym made), ground arith)
    ]

    init_pages-PagesFit :
        s.ee.memory_page_count ≤ static_memory_available / page_size
        → PagesFit os request j s.ee
        → PagesFit os request j (init_pages os request s).1.ee
    init_pages-PagesFit few (room, past) = elim (init_pages-cases os request j info s) [
      | inl same ↦ pages-stay s.ee (init_pages os request s).1.ee same (room, past)
      | inr (base, entry) ↦ (rw base room, ground arith)
    ]

  -- A stage after which the arrays still fit.
  record KeepsFit (m : Stage) : Type 0 where
    fits : (s : Setup) → Fits s.ee → Fits (m s).1.ee

  then_fits :
      {n : Stage} (r : Flow (Unit {0}) × Setup)
      → KeepsFit n
      → Fits r.1.ee
      → Fits (and_then r (λ _. n)).1.ee
  then_fits (go t, s) k h = k.fits s h
  then_fits (stop err, s) k h = h

  KeepsFit-then : {m n : Stage} → KeepsFit m → KeepsFit n → KeepsFit (m >> n)
  KeepsFit-then {m = m} k l = record { fits = λ s h. then_fits (m s) l (k.fits s h) }

  code-KeepsFit : KeepsFit (init_code os request)
  code-KeepsFit = record {
    fits = λ s f.
        let e = (init_code os request s).1.ee in
        let (t, i, p, g) = code-same os request j info s in
        record {
          table = table-stays s.ee e t f.table;
          imports = imports-stay s.ee e i f.imports;
          pointers = pointers-stay s.ee e p f.pointers;
          pages = pages-stay s.ee e g f.pages;
        };
  }

  mapping-KeepsFit : KeepsFit (init_mapping os request)
  mapping-KeepsFit = record {
    fits = λ s f.
        let e = (init_mapping os request s).1.ee in
        let (t, i, p, g) = mapping-same os request j info s in
        record {
          table = table-stays s.ee e t f.table;
          imports = imports-stay s.ee e i f.imports;
          pointers = pointers-stay s.ee e p f.pointers;
          pages = pages-stay s.ee e g f.pages;
        };
  }

  globals-KeepsFit : KeepsFit (init_globals os request)
  globals-KeepsFit = record {
    fits = λ s f.
        let e = (init_globals os request s).1.ee in
        let (t, i, g) = globals-same os request j info s in
        record {
          table = table-stays s.ee e t f.table;
          imports = imports-stay s.ee e i f.imports;
          pointers = globals-PointersFit s f.pointers;
          pages = pages-stay s.ee e g f.pages;
        };
  }

  imports-KeepsFit : KeepsFit (init_imports os request info)
  imports-KeepsFit = record {
    fits = λ s f.
        let e = (init_imports os request info s).1.ee in
        let (t, p, g) = imports-same os request j info s in
        record {
          table = table-stays s.ee e t f.table;
          imports = imports-ImportsFit s f.imports;
          pointers = pointers-stay s.ee e p f.pointers;
          pages = pages-stay s.ee e g f.pages;
        };
  }

  sigindices-KeepsFit : KeepsFit (init_sigindices os request)
  sigindices-KeepsFit = record {
    fits = λ s f.
        let e = (init_sigindices os request s).1.ee in
        let (t, i, p, g) = sigindices-same os request j info s in
        record {
          table = table-stays s.ee e t f.table;
          imports = imports-stay s.ee e i f.imports;
          pointers = pointers-stay s.ee e p f.pointers;
          pages = pages-stay s.ee e g f.pages;
        };
  }

  table-KeepsFit : KeepsFit (init_table os request)
  table-KeepsFit = record {
    fits = λ s f.
        let e = (init_table os request s).1.ee in
        let (i, p, g) = table-same os request j info s in
        record {
          table = table-TableFits s f.table;
          imports = imports-stay s.ee e i f.imports;
          pointers = pointers-stay s.ee e p f.pointers;
          pages = pages-stay s.ee e g f.pages;
        };
  }

  stack-KeepsFit : KeepsFit (init_stack os request)
  stack-KeepsFit = record {
    fits = λ s f.
        let e = (init_stack os request s).1.ee in
        let (t, i, p, g) = stack-same os request j info s in
        record {
          table = table-stays s.ee e t f.table;
          imports = imports-stay s.ee e i f.imports;
          pointers = pointers-stay s.ee e p f.pointers;
          pages = pages-stay s.ee e g f.pages;
        };
  }

  -- From the allocation of the pages on.
  filled :
      (s : Setup)
      → s.ee.memory_page_count ≤ static_memory_available / page_size
      → Fits s.ee
      → Fits ((init_pages os request >> init_mapping os request) s).1.ee
  filled s few f =
      let e = (init_pages os request s).1.ee in
      let (t, i, p) = pages-same os request j info s in
      then_fits (init_pages os request s) mapping-KeepsFit (record {
        table = table-stays s.ee e t f.table;
        imports = imports-stay s.ee e i f.imports;
        pointers = pointers-stay s.ee e p f.pointers;
        pages = init_pages-PagesFit s few f.pages;
      })

  prepared-Fits : (s : Setup) → Fits s.ee → Fits (prepared os request info s).ee
  prepared-Fits s f = record {
    table = f.table;
    imports = f.imports;
    pointers = f.pointers;
    pages = (inr ((call_alloc os area static_memory_size s.world).1, refl), inr refl);
  }

  area-Fits : (s : Setup) (p : ℕ) → Fits s.ee → Fits (record s.ee { static_memory_vm = p })
  area-Fits s p f = record {
    table = f.table;
    imports = f.imports;
    pointers = f.pointers;
    pages = f.pages;
  }

  memory-KeepsFit : request.memory_len ≤ max_memory_size → KeepsFit (init_memory os request)
  unfolding init_memory
  memory-KeepsFit small = record {
    fits = λ s f.
        let s₁ = prepared os request info s in
        elim (Bool-cases (not (request.memory == 0) && not (request.memory_len == 0))) [
          | inr no_memory ↦ rw no_memory f
          | inl given ↦ rw given (elim (Bool-cases (s₁.ee.static_memory_vm == 0)) [
            | inl no_area ↦ rw no_area (area-Fits s s₁.ee.static_memory_vm f)
            | inr got_area ↦ rw got_area (elim (Bool-cases (s₁.ee.memory_pages == 0)) [
              | inl no_array ↦ rw no_array (prepared-Fits s f)
              | inr got_array ↦ rw got_array (filled s₁ (omega arith) (prepared-Fits s f))
            ])
          ])
        ];
  }

  pub body-Fits :
      (s : Setup)
      → request.memory_len ≤ max_memory_size
      → Fits s.ee
      → Fits (init_body os request info s).1.ee
  unfolding init_body
  body-Fits s small f =
      (KeepsFit-then code-KeepsFit (
          KeepsFit-then (memory-KeepsFit small) (
            KeepsFit-then globals-KeepsFit (
              KeepsFit-then imports-KeepsFit (
                KeepsFit-then sigindices-KeepsFit
                  (KeepsFit-then table-KeepsFit stack-KeepsFit)))))).fits
        s f
