-- ===== src/Vm/Written/Stages.antt =====
-- What each stage of `init_execution_engine` writes, also where it fails.
use kernel_wasm.Base.{ℕ, ◌+◌, ◌*◌, ◌≡◌, ◌≢◌, inl, inr, ap, not, ◌&&◌, ◌==◌, Bool-cases, [], arith}
use kernel_wasm.Kapi.Info.{ImportInfo}
use kernel_wasm.Kernel.{Kernel, IsLawful, World, Event, virt, call_alloc, call_map, emit}
use kernel_wasm.Vm.Engine.{LoadCodeRequest, round_up_to_page_size}
use kernel_wasm.Vm.Grow.Frame.{alloc_pages-ram}
use kernel_wasm.Vm.Init.{
  init_body, init_code, init_pages, init_mapping, init_memory, init_globals, init_imports,
  init_sigindices, init_table, init_stack,
}
use kernel_wasm.Vm.Ledger.Owned.{Unset₁, Unset₂, Unset₃, Unset₄, Unset₅, Unset₆, Unset₇}
use kernel_wasm.Vm.Ledger.Stages.{
  code-Keeps, globals-Keeps, imports-Keeps, sigindices-Keeps, table-Keeps,
}
use kernel_wasm.Vm.Ledger.Stages.Memory.{memory-Keeps}
use kernel_wasm.Vm.Setup.{Setup, ◌>>◌}
use kernel_wasm.Vm.Sized.{prepared}
use kernel_wasm.Vm.Written.{Spares, Spares-trans, SparesIn, SparesIn-then}

module _ (os : Kernel) (lawful : IsLawful os) (request : LoadCodeRequest) (info : ImportInfo ℕ)
    (a : ℕ) where
  code-Spares : (s : Setup) → Unset₁ s.ee → Spares os request a s (init_code os request s).1
  unfolding init_code
  code-Spares s u =
      let (p, w₁) = call_alloc os virt (round_up_to_page_size request.code_len) s.world in
      let kept = lawful.within w₁ p request.code request.code_len a in ground (arith, kept)

  globals-Spares : (s : Setup) → Unset₃ s.ee → Spares os request a s (init_globals os request s).1
  unfolding init_globals
  globals-Spares s u =
      let (p, w₁) = call_alloc os virt (8 * request.global_count) s.world in
      let (q, w₂) = call_alloc os virt (8 * request.global_count) w₁ in
      let kept = lawful.within w₂ q request.globals (8 * request.global_count) a in
      ground (arith, kept)

  imports-Spares :
      (s : Setup) → Unset₄ s.ee → Spares os request a s (init_imports os request info s).1
  unfolding init_imports
  imports-Spares s u = ground arith

  sigindices-Spares :
      (s : Setup) → Unset₅ s.ee → Spares os request a s (init_sigindices os request s).1
  unfolding init_sigindices
  sigindices-Spares s u =
      let n = 4 * request.dynamic_sigindice_count in
      let (p, w₁) = call_alloc os virt n s.world in
      let kept = lawful.within w₁ p request.dynamic_sigindices n a in ground (arith, kept)

  table-Spares : (s : Setup) → Unset₆ s.ee → Spares os request a s (init_table os request s).1
  unfolding init_table
  table-Spares s u = ground arith

  stack-Spares : (s : Setup) → Unset₇ s.ee → Spares os request a s (init_stack os request s).1
  unfolding init_stack
  stack-Spares s u = ground arith

  -- The pages are allocated without a write, and the mapping writes at the area's address.
  pages-same :
      (s : Setup)
      → ((init_pages os request s).1.world.ram ≡ s.world.ram)
        × ((init_pages os request s).1.ee.code ≡ s.ee.code)
        × ((init_pages os request s).1.ee.static_memory_vm ≡ s.ee.static_memory_vm)
        × ((init_pages os request s).1.ee.local_global_backing ≡ s.ee.local_global_backing)
        × ((init_pages os request s).1.ee.dynamic_sigindices ≡ s.ee.dynamic_sigindices)
  unfolding init_pages
  pages-same s =
      ground (arith, alloc_pages-ram os s.ee.memory_page_count 0 s.ee.memory_page s.world)

  mapping-Spares :
      (s : Setup) → s.ee.static_memory_vm ≢ 0 → Spares os request a s (init_mapping os request s).1
  unfolding init_mapping
  mapping-Spares s used =
      let base = os.area_addr s.ee.static_memory_vm in
      let (mapped, w₁) = call_map os base request.memory_len s.world in
      let w₂ = emit (Event.flush base (base + request.memory_len)) w₁ in
      let kept = lawful.within w₂ base request.memory request.memory_len a in ground (arith, kept)

  pages-Spares : (s : Setup) → Spares os request a s (init_pages os request s).1
  pages-Spares s =
      let same = pages-same s in
      record {
        code = inl same.1;
        memory = inl same.2;
        globals = inl same.3;
        sigindices = inl same.4;
        ram = inr (ap (λ ram. ram a) same.0);
      }

  -- From the allocation of the pages on.
  filled :
      SparesIn os request a
        (λ ee. ee.static_memory_vm ≢ 0)
        (λ ee. Unit {0})
        (init_pages os request >> init_mapping os request)
  filled =
      SparesIn-then os request a {m = init_pages os request} {n = init_mapping os request}
        (record {
          spares = λ s used. pages-Spares s;
          unset = λ s used e. let same = pages-same s in rw same.2 used;
        })
        (record { spares = mapping-Spares; unset = λ s used e. tt })

  prepared-Spares : (s : Setup) → Unset₂ s.ee → Spares os request a s (prepared os request info s)
  prepared-Spares s u = ground arith

  memory-Spares : (s : Setup) → Unset₂ s.ee → Spares os request a s (init_memory os request s).1
  unfolding init_memory
  memory-Spares s u =
      let s₁ = prepared os request info s in
      let start = prepared-Spares s u in
      elim (Bool-cases (not (request.memory == 0) && not (request.memory_len == 0))) [
        | inr no_memory ↦ rw no_memory (ground arith)
        | inl given ↦ rw given (elim (Bool-cases (s₁.ee.static_memory_vm == 0)) [
          | inl no_area ↦ rw no_area (ground arith)
          | inr got_area ↦ rw got_area (elim (Bool-cases (s₁.ee.memory_pages == 0)) [
            | inl no_array ↦ rw no_array (ground arith)
            | inr got_array ↦
                rw got_array (Spares-trans os request a start (filled.spares s₁ (ground arith)))
          ])
        ])
      ]

  -- What the stage before leaves unset, from the account of its allocations.
  pub body-SparesIn : SparesIn os request a Unset₁ (λ ee. Unit {0}) (init_body os request info)
  unfolding init_body
  body-SparesIn =
      SparesIn-then os request a
        (record { spares = code-Spares; unset = (code-Keeps os request 1 (omega arith) w).unset })
        (SparesIn-then os request a
          (record {
            spares = memory-Spares;
            unset = (memory-Keeps os request 1 (omega arith) w).unset;
          })
          (SparesIn-then os request a
            (record {
              spares = globals-Spares;
              unset = (globals-Keeps os request 1 (omega arith) w).unset;
            })
            (SparesIn-then os request a
              (record {
                spares = imports-Spares;
                unset = (imports-Keeps os request 1 (omega arith) w info).unset;
              })
              (SparesIn-then os request a
                (record {
                  spares = sigindices-Spares;
                  unset = (sigindices-Keeps os request 1 (omega arith) w).unset;
                })
                (SparesIn-then os request a
                  (record {
                    spares = table-Spares;
                    unset = (table-Keeps os request 1 (omega arith) w).unset;
                  })
                  (record { spares = stack-Spares; unset = λ s u e. tt }))))))
    where
      w : World
      w = record { ram = λ p. 0; log = [] }
