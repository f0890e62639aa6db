-- ===== src/Vm/Linked.antt =====
-- vm.c: what a loaded engine calls: its imports, its table and its stack.
use kernel_wasm.Base.{
  ℕ, zero, suc, ◌+◌, ◌*◌, ◌<◌, ◌≤◌, ◌≡◌, refl, ap, ◌≢◌, ◌∙◌, inl, inr, Option, none, some, arith,
  ◌==◌, update, Bool-cases, Option-cases,
}
use kernel_wasm.Kapi.Info.{ImportInfo}
use kernel_wasm.Kapi.Registry.{Registry, get_module_resolver}
use kernel_wasm.Kapi.Resolver.{ModuleResolver, resolve_import}
use kernel_wasm.Kernel.{Kernel, World, call_alloc, virt, ImportRequest}
use kernel_wasm.Vm.Engine.{Engine, LoadCodeRequest}
use kernel_wasm.Vm.Init.{
  terminate, init_body, init_code, init_pages, init_mapping, init_memory, init_globals, import_loop,
  init_imports, init_sigindices, init_table, init_stack,
}
use kernel_wasm.Vm.Load.{init_execution_engine}
use kernel_wasm.Vm.Pages.{Allocated, alloc_pages}
use kernel_wasm.Vm.Setup.{Setup, go}
use kernel_wasm.Vm.Sized.{prepared}
use kernel_wasm.Vm.Triple.{Triple, Triple-then, load_leaves}

-- The import was read from the request, and resolves to what stands in the engine.
pub record IsLinked (os : Kernel) (request : LoadCodeRequest) (info : ImportInfo ℕ)
    (r : ModuleResolver) (i : ℕ) (fn : Option ℕ) : Type 0 where
  pub read_in : World
  pub import : ImportRequest
  pub address : ℕ
  pub was_read : os.import_request read_in (request.imported_funcs + 68 * i) ≡ some import
  pub resolves : resolve_import r (terminate 63 import.name) import.param_count info ≡ some address
  pub linked : fn ≡ some address

module _ (os : Kernel) (request : LoadCodeRequest) (info : ImportInfo ℕ) (r : ModuleResolver) where
  abbrev HasResolver : Engine → Type 0
  HasResolver ee = ee.resolver ≡ r

  -- A round of the loop leaves what earlier rounds wrote.
  import_loop-below :
      (w : World) (left i : ℕ) (funcs : ℕ → Option ℕ) (j : ℕ)
      → j < i
      → (import_loop os request r w info left i funcs).1 j ≡ funcs j
  unfolding import_loop
  import_loop-below w zero i funcs j lt = refl
  import_loop-below w (suc left) i funcs j lt =
      elim (Option-cases (os.import_request w (request.imported_funcs + 68 * i))) [
        | inl fault ↦ rw (fault, import_loop) refl
        | inr (req, e) ↦
            elim (Option-cases (resolve_import r (terminate 63 req.name) req.param_count info)) [
              | inl unknown ↦ rw (e, import_loop) (rw (unknown, import_loop) (ground arith))
              | inr (f, known) ↦
                  rw (e, import_loop)
                    (rw (known, import_loop)
                      (import_loop-below w left (suc i) (update funcs i (some f)) j (omega arith)
                        ∙ ground arith))
            ]
      ]

  import_loop-IsLinked :
      (w : World) (left i : ℕ) (funcs : ℕ → Option ℕ) (j : ℕ)
      → i ≤ j
      → j < i + left
      → (import_loop os request r w info left i funcs).0 ≡ none
      → IsLinked os request info r j ((import_loop os request r w info left i funcs).1 j)
  unfolding import_loop
  import_loop-IsLinked w zero i funcs j le lt h = absurd (omega arith)
  import_loop-IsLinked w (suc left) i funcs j le lt h =
      elim (Option-cases (os.import_request w (request.imported_funcs + 68 * i))) [
        | inl fault ↦ absurd (ground (arith, rw (fault, import_loop) at h))
        | inr (req, e) ↦
            let h₁ = rw (e, import_loop) at h in
            elim (Option-cases (resolve_import r (terminate 63 req.name) req.param_count info)) [
              | inl unknown ↦ absurd (ground (arith, rw (unknown, import_loop) at h₁))
              | inr (f, known) ↦
                  let funcs' = update funcs i (some f) in
                  rw (e, import_loop)
                    (rw (known, import_loop)
                      (elim (Bool-cases (j == i)) [
                        | inl same ↦
                            let at : j ≡ i = ground arith in
                            record {
                              read_in = w;
                              import = req;
                              address = f;
                              was_read = rw at e;
                              resolves = known;
                              linked =
                                  import_loop-below w left (suc i) funcs' j (omega arith)
                                  ∙ ground arith;
                            }
                        | inr other ↦
                            import_loop-IsLinked w left (suc i) funcs' j (ground arith)
                              (omega arith) (rw (known, import_loop) at h₁)
                      ]))
            ]
      ]

  module _ (i : ℕ) where
    abbrev Linked : Engine → Type 0
    Linked ee = IsLinked os request info r i (ee.imported_func i)

    code-keeps : Triple HasResolver (init_code os request) HasResolver
    unfolding init_code
    code-keeps = record { leaves = λ s e h. ground arith }

    globals-keep : Triple HasResolver (init_globals os request) HasResolver
    unfolding init_globals
    globals-keep = record { leaves = λ s e h. ground arith }

    pages-same : (s : Setup) → (init_pages os request s).1.ee.resolver ≡ s.ee.resolver
    unfolding init_pages
    pages-same s = elim (Option-cases r'.failed) [
      | inl all ↦ rw (all, init_pages) refl
      | inr (k, bad) ↦ rw (bad, init_pages) refl
    ]
      where
        r' : Allocated
        r' = alloc_pages os s.ee.memory_page_count 0 s.ee.memory_page s.world

    mapping-same : (s : Setup) → (init_mapping os request s).1.ee.resolver ≡ s.ee.resolver
    unfolding init_mapping
    mapping-same s = ground arith

    memory-same : (s : Setup) → (init_memory os request s).1.ee.resolver ≡ s.ee.resolver
    unfolding init_memory
    memory-same s =
        let s₁ = prepared os request info s in
        ground (arith, pages-same s₁, mapping-same (init_pages os request s₁).1)

    memory-keeps : Triple HasResolver (init_memory os request) HasResolver
    memory-keeps = record { leaves = λ s e h. memory-same s ∙ e }

    abbrev looped : Setup → Option ℕ × (ℕ → Option ℕ)
    looped s =
        import_loop os request s.ee.resolver
          (call_alloc os virt (16 * request.imported_func_count) s.world).1 info
          request.imported_func_count 0 s.ee.imported_func

    imports-loop :
        (s : Setup)
        → request.imported_funcs ≢ 0
        → request.imported_func_count ≢ 0
        → (init_imports os request info s).0 ≡ go tt
        → ((looped s).0 ≡ none)
          × ((init_imports os request info s).1.ee.imported_func ≡ (looped s).1)
    unfolding init_imports
    imports-loop s used counted h = ground arith

    imports-link :
        request.imported_funcs ≢ 0
        → i < request.imported_func_count
        → Triple HasResolver (init_imports os request info) Linked
    imports-link used within = record {
      leaves = λ s e h.
          let (fine, same) = imports-loop s used (omega arith) h in
          rw same (
            rw e (
              import_loop-IsLinked (call_alloc os virt (16 * request.imported_func_count) s.world).1
                request.imported_func_count 0 s.ee.imported_func i (omega arith) (omega arith)
                (rw e at fine)));
    }

    sigindices-same :
        (s : Setup) → (init_sigindices os request s).1.ee.imported_func ≡ s.ee.imported_func
    unfolding init_sigindices
    sigindices-same s = ground arith

    table-same : (s : Setup) → (init_table os request s).1.ee.imported_func ≡ s.ee.imported_func
    unfolding init_table
    table-same s = ground arith

    stack-same : (s : Setup) → (init_stack os request s).1.ee.imported_func ≡ s.ee.imported_func
    unfolding init_stack
    stack-same s = ground arith

    sigindices-keep : Triple Linked (init_sigindices os request) Linked
    unfolding init_sigindices
    sigindices-keep = record { leaves = λ s e h. rw (sigindices-same s) e }

    table-keeps : Triple Linked (init_table os request) Linked
    table-keeps = record { leaves = λ s e h. rw (table-same s) e }

    stack-keeps : Triple Linked (init_stack os request) Linked
    stack-keeps = record { leaves = λ s e h. rw (stack-same s) e }

    body-Linked :
        request.imported_funcs ≢ 0
        → i < request.imported_func_count
        → Triple HasResolver (init_body os request info) Linked
    unfolding init_body
    body-Linked used within = Triple-then code-keeps (
        Triple-then memory-keeps (
          Triple-then globals-keep (
            Triple-then (imports-link used within)
              (Triple-then sigindices-keep (Triple-then table-keeps stack-keeps)))))

-- When `init_execution_engine` returns 0 for a request with imports, each of them was read from the
-- request, and the engine has for it what `module_resolver_resolve_import` finds by its name and
-- parameter count.
pub init_execution_engine-IsLinked :
    (os : Kernel) (g : Registry) (info : ImportInfo ℕ) (request : LoadCodeRequest) (ee : Engine)
    (w : World) (i : ℕ)
    → request.imported_funcs ≢ 0
    → i < request.imported_func_count
    → (init_execution_engine os g info request ee w).err ≡ 0
    → ((get_module_resolver os g w).0.0 ≡ 0)
      × IsLinked os request info
          (get_module_resolver os g w).0.1
          i
          ((init_execution_engine os g info request ee w).ee.imported_func i)
init_execution_engine-IsLinked os g info request ee w i used within h =
    let r = (get_module_resolver os g w).0.1 in
    let (good, fine, linked) =
      load_leaves os request (Linked os request info r i) g info ee w
        (λ good. record {
          leaves = λ s e done.
              (body-Linked os request info r i used within).leaves s (ap (λ x. x.resolver) e) done;
        })
        h in
    (fine, linked)
