-- ===== src/Vm/Init.antt =====
-- vm.c: `init_execution_engine`, in the stages of its body.
use Prim.Native.String.{String}
use kernel_wasm.Base.{
  ℕ, zero, suc, ◌+◌, ◌-◌, ◌*◌, ◌/◌, ◌%◌, true, not, ◌&&◌, Option, none, some, ◌==◌, ltb,
  if◌then◌else◌, neg, u64, update,
}
use kernel_wasm.Kernel.{
  Kernel, World, Event, emit, virt, area, enomem, efault, einval, page_size, call_map,
}
use kernel_wasm.Kapi.Info.{ImportInfo}
use kernel_wasm.Kapi.Resolver.{ModuleResolver, resolve_import}
use kernel_wasm.Vm.Engine.{
  LoadCodeRequest, Anyfunc, round_up_to_page_size, static_memory_size, static_memory_available,
  stack_size, stack_guard_size,
}
use kernel_wasm.Vm.Pages.{alloc_pages}
use kernel_wasm.Vm.Setup.{
  Stage, go, stop, ◌>>=◌, ◌>>◌, fail_if, only_if, finish, get, set, on_world, allocate, copy,
}

-- `import_req.name[63] = 0`: at most `n` characters stay.
unfoldable pub terminate : (n : ℕ) → String → String
terminate zero name = String.[]
terminate (suc n) String.[] = String.[]
terminate (suc n) (String.◌∷◌ c name) = String.◌∷◌ c (terminate n name)

module _ (os : Kernel) (request : LoadCodeRequest) where
  -- "Initialize code storage."
  unfoldable pub init_code : Stage
  init_code = do
    p ← allocate os virt (round_up_to_page_size request.code_len)
    set (λ ee. record ee { code = p })
    fail_if (p == 0) enomem
    fail_if (not (p % 4096 == 0)) einval
    left ← copy os p request.code request.code_len
    fail_if (not (left == 0)) efault
    set (λ ee. record ee { code_len = request.code_len })

  -- The loop that fills the page array.
  unfoldable pub init_pages : Stage
  init_pages s =
      let r = alloc_pages os s.ee.memory_page_count 0 s.ee.memory_page s.world in
      let ee = record s.ee { memory_page = r.memory_page } in
      elim r.failed [
        | none ↦ (go tt, record s { ee = ee; world = r.world })
        | some i ↦ (
          stop (neg enomem),
          record {
            ee = record ee { memory_page_count = i };
            world = r.world;
            pages_allocated_without_mapping = true;
          },
        )
      ]

  -- The mapping of the pages, and the copy of the initial memory.
  unfoldable pub init_mapping : Stage
  init_mapping = do
    s ← get
    let base = os.area_addr s.ee.static_memory_vm
    mapped ← on_world (call_map os base request.memory_len)
    fail_if (not (mapped == s.ee.memory_page_count)) enomem
    on_world (λ w. (tt, emit (Event.flush base (base + request.memory_len)) w))
    set (λ ee. record ee { ctx = record ee.ctx { memory_base = base } })
    left ← copy os base request.memory request.memory_len
    fail_if (not (left == 0)) efault
    set (λ ee. record ee { ctx = record ee.ctx { memory_bound = request.memory_len } })

  -- The linear memory.
  unfoldable pub init_memory : Stage
  init_memory = only_if (not (request.memory == 0) && not (request.memory_len == 0)) (do
    p ← allocate os area static_memory_size
    set (λ ee. record ee { static_memory_vm = p })
    fail_if (p == 0) enomem
    set (λ ee. record ee { memory_page_count = request.memory_len / page_size })
    q ← allocate os virt (8 * (static_memory_available / page_size))
    set (λ ee. record ee { memory_pages = q; memory_page = λ i. 0 })
    fail_if (q == 0) enomem
    init_pages
    init_mapping)

  -- The globals.
  unfoldable pub init_globals : Stage
  init_globals = only_if (not (request.globals == 0) && not (request.global_count == 0)) (do
    p ← allocate os virt (8 * request.global_count)
    set (λ ee. record ee { local_global_ptr_backing = p })
    fail_if (p == 0) enomem
    q ← allocate os virt (8 * request.global_count)
    set (λ ee. record ee { local_global_backing = q })
    fail_if (q == 0) enomem
    left ← copy os q request.globals (8 * request.global_count)
    fail_if (not (left == 0)) efault
    set (λ ee. record ee {
      local_global_ptr =
          λ i. if ltb i request.global_count then q + 8 * i else ee.local_global_ptr i;
      globals = p;
    }))

  -- The loop of the imports, with the copy and `resolve_import`; `info` stands for the uninitialised
  -- local of `module_resolver_resolve_import`.
  unfoldable pub import_loop :
      ModuleResolver
      → World
      → ImportInfo ℕ
      → (left i : ℕ) → (ℕ → Option ℕ)
      → Option ℕ × (ℕ → Option ℕ)
  unfolding terminate
  import_loop r w info zero i funcs = (none, funcs)
  import_loop r w info (suc left) i funcs =
      elim (os.import_request w (request.imported_funcs + 68 * i)) [
        | none ↦ (some efault, funcs)
        | some req ↦
            let fn = resolve_import r (terminate 63 req.name) req.param_count info in
            elim fn [
              | none ↦ (some einval, update funcs i none)
              | some f ↦ import_loop r w info left (suc i) (update funcs i (some f))
            ]
      ]

  -- The imported functions.
  unfoldable pub init_imports : ImportInfo ℕ → Stage
  unfolding import_loop
  init_imports info =
      only_if (not (request.imported_funcs == 0) && not (request.imported_func_count == 0)) (do
        p ← allocate os virt (16 * request.imported_func_count)
        set (λ ee. record ee { imported_funcs = p })
        fail_if (p == 0) enomem
        s ← get
        let r =
            import_loop s.ee.resolver s.world info request.imported_func_count 0 s.ee.imported_func
        set (λ ee. record ee { imported_func = r.1 })
        finish r.0)

  -- The signature indices.
  unfoldable pub init_sigindices : Stage
  init_sigindices =
      only_if (not (request.dynamic_sigindices == 0) && not (request.dynamic_sigindice_count == 0))
        (do
          p ← allocate os virt (4 * request.dynamic_sigindice_count)
          set (λ ee. record ee { dynamic_sigindices = p })
          fail_if (p == 0) enomem
          left ← copy os p request.dynamic_sigindices (4 * request.dynamic_sigindice_count)
          fail_if (not (left == 0)) efault)

  -- The loop of the table; an offset of -1 is a NULL function.
  unfoldable pub table_loop :
      (code : ℕ) → World → (left i : ℕ) → (ℕ → Anyfunc) → Option ℕ × (ℕ → Anyfunc)
  table_loop code w zero i table = (none, table)
  table_loop code w (suc left) i table = elim (os.table_entry_request w (request.table + 16 * i)) [
    | none ↦ (some efault, table)
    | some req ↦ table_loop code w left (suc i) (
        update table i (record {
          func = if req.offset == 0xffff_ffff_ffff_ffff then 0 else u64 (code + req.offset);
          sig_id = req.sig_id;
        }))
  ]

  -- The table.
  unfoldable pub init_table : Stage
  unfolding table_loop
  init_table = only_if (not (request.table == 0) && not (request.table_count == 0)) (do
    p ← allocate os virt (24 * request.table_count)
    set (λ ee. record ee { table_base = p })
    fail_if (p == 0) enomem
    set (λ ee. record ee { table_count = request.table_count })
    s ← get
    let r = table_loop s.ee.code s.world request.table_count 0 s.ee.table
    set (λ ee. record ee { table = r.1 })
    finish r.0
    set (λ ee. record ee { has_tables = true }))

  -- The intrinsics and the stack, whose guard becomes read-only.
  unfoldable pub init_stack : Stage
  init_stack = do
    set (λ ee. record ee { has_intrinsics = true })
    p ← allocate os virt stack_size
    set (λ ee. record ee { stack_backing = p })
    fail_if (p == 0) enomem
    let begin = round_up_to_page_size p
    let end = u64 (p + stack_size)
    set (λ ee. record ee { stack_begin = begin; stack_end = end - end % 16 })
    on_world (λ w. (tt, emit (Event.set_ro begin (stack_guard_size / 4096)) w))
    set (λ ee. record ee { stack_lower_bound = u64 (begin + stack_guard_size + 8192) })

  -- The body between `get_module_resolver` and `return 0`.
  unfoldable pub init_body : ImportInfo ℕ → Stage
  init_body info = do
    init_code
    init_memory
    init_globals
    init_imports info
    init_sigindices
    init_table
    init_stack
