-- ===== src/Vm/Reads.antt =====
-- vm.c: where `init_execution_engine` reads the arrays of the request, by the layout of their structures.
use kernel_wasm.Base.{ℕ, ◌+◌, ◌*◌, ◌<◌, ◌≡◌, ◌≢◌, some, sym, ◌∙◌, ◌==◌, if◌then◌else◌, u64}
use kernel_wasm.Kapi.Info.{ImportInfo}
use kernel_wasm.Kapi.Registry.{Registry, get_module_resolver}
use kernel_wasm.Kapi.Resolver.{resolve_import}
use kernel_wasm.Kernel.{Kernel, World, ImportRequest, TableEntryRequest}
use kernel_wasm.Layout.{size_of, align_of, width, locate}
use kernel_wasm.Layout.Shared.{Shared, members_of, ctype}
use kernel_wasm.Vm.Engine.{Engine, LoadCodeRequest}
use kernel_wasm.Vm.Entered.{init_execution_engine-HasEntry}
use kernel_wasm.Vm.Init.{terminate}
use kernel_wasm.Vm.Linked.{init_execution_engine-IsLinked}
use kernel_wasm.Vm.Load.{init_execution_engine}

-- The import `i` of the engine is what the `i`-th structure of the user's array asks for.
abbrev pub ReadsImport :
    Kernel → Registry → ImportInfo ℕ → LoadCodeRequest → World → ℕ → Engine → Type 0
ReadsImport os g info request w i ee =
    (v : World) × (req : ImportRequest) × (os.import_request v
        (request.imported_funcs + size_of (ctype Shared.import_request) * i)
      ≡ some req)
    × (ee.imported_func i
        ≡ resolve_import (get_module_resolver os g w).0.1 (terminate 63 req.name) req.param_count
            info)

-- The entry `k` is what the `k`-th structure of the user's array asks for.
abbrev pub ReadsEntry : Kernel → LoadCodeRequest → ℕ → Engine → Type 0
ReadsEntry os request k ee =
    (v : World) × (req : TableEntryRequest) × (os.table_entry_request v
        (request.table + size_of (ctype Shared.table_entry_request) * k)
      ≡ some req)
    × ((ee.table k).sig_id ≡ req.sig_id)
    × ((ee.table k).func
        ≡ (if req.offset == 0xffff_ffff_ffff_ffff then 0 else u64 (ee.code + req.offset)))

-- When `init_execution_engine` returns 0 for a request with imports and a table, each import and each
-- table entry of the engine comes from the structure of its index in the user's array, where the array is
-- laid out as C does on x86-64: it was read at the array's address plus the index times the size of
-- `struct import_request` or `struct table_entry_request`, as the members declared in request.h give it.
pub init_execution_engine_reads :
    (os : Kernel) (g : Registry) (info : ImportInfo ℕ) (request : LoadCodeRequest) (ee : Engine)
    (w : World) (i k : ℕ)
    → request.imported_funcs ≢ 0
    → i < request.imported_func_count
    → request.table ≢ 0
    → k < request.table_count
    → (init_execution_engine os g info request ee w).err ≡ 0
    → ReadsImport os g info request w i (init_execution_engine os g info request ee w).ee
      × ReadsEntry os request k (init_execution_engine os g info request ee w).ee
unfolding members_of align_of size_of locate width
init_execution_engine_reads os g info request ee w i k imports within table inside h =
    let (fine, linked) = init_execution_engine-IsLinked os g info request ee w i imports within h in
    let entered = init_execution_engine-HasEntry os g info request ee w k table inside h in
    let entry = entered.entry in
    (
      (linked.read_in, linked.import, linked.was_read, linked.linked ∙ sym linked.resolves),
      (entry.read_in, entry.asked, entry.was_read, entry.sig_id, entry.func),
    )
