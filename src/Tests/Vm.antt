-- ===== src/Tests/Vm.antt =====
-- vm.h and vm.c, run: a module with memory, globals and a table is loaded, its memory grows, and the
-- engine is destroyed.
use kernel_wasm.Base.{ℕ, ◌+◌, ◌≤◌, ◌<◌, ◌≡◌, refl, ◌≢◌, ◌⊎◌, arith, none, some, [], ◌∷◌, total}
use kernel_wasm.Kapi.Info.{ImportInfo}
use kernel_wasm.Kapi.Registry.{init_global_registry, get_module_resolver, instance_loop}
use kernel_wasm.Kernel.{Kernel, World, Event, virt, page}
use kernel_wasm.Kernel.Ledger.{hit, Gained}
use kernel_wasm.Vm.Context.{vmctx_get_memory_slice}
use kernel_wasm.Vm.Engine.{Engine, LoadCodeRequest, zeroed}
use kernel_wasm.Vm.Grow.{wasm_memory_grow}
use kernel_wasm.Vm.Grow.Account.{Fate, wasm_memory_grow_accounts}
use kernel_wasm.Vm.Grow.Size.{IsSized, Outcome, wasm_memory_grow_lem}
use kernel_wasm.Vm.Ledger.Life.{init_execution_engine_accounts, destroy-init}
use kernel_wasm.Vm.Ledger.Owned.{Accounts}
use kernel_wasm.Vm.Init.{
  init_body, init_code, init_memory, init_pages, init_mapping, init_globals, init_imports,
  init_sigindices, table_loop, init_table, init_stack,
}
use kernel_wasm.Vm.Pages.{alloc_pages}
use kernel_wasm.Vm.Load.{
  Loaded, is_refused, conclude, init_execution_engine, destroy_execution_engine,
}
use kernel_wasm.Vm.Entered.{HasEntry, init_execution_engine-HasEntry}
use kernel_wasm.Vm.Stack.{HasStack, Fits, init_execution_engine-HasStack}
use kernel_wasm.Vm.Slice.{get_memory_slice_lem}
use kernel_wasm.Kapi.Resolver.{ModuleResolver, blank}
use kernel_wasm.Tests.Machine.{machine, booted, one_page, one_page-IsPlaced}

-- The slice of the last four bytes is granted, and one byte more is not.
last_word : vmctx_get_memory_slice one_page 65532 4 ≡ 1114108
unfolding vmctx_get_memory_slice
last_word = refl

past_the_end : vmctx_get_memory_slice one_page 65532 5 ≡ 0
unfolding vmctx_get_memory_slice
past_the_end = refl

get_memory_slice_lem_example :
    ((65532 < 65536) × (65536 ≤ 65536) × (vmctx_get_memory_slice one_page 65532 4 ≡ 1114108))
    ⊎ (((65536 ≤ 65532) ⊎ (65536 < 65536)) × (vmctx_get_memory_slice one_page 65532 4 ≡ 0))
get_memory_slice_lem_example = get_memory_slice_lem one_page 65532 4 one_page-IsPlaced

abbrev pub unset : ImportInfo ℕ
unset = record { fn = none; param_count = 0 }

-- A request with code, one WebAssembly page of memory and three globals.
abbrev pub request : LoadCodeRequest
request = record {
  code = 4096;
  code_len = 100;
  memory = 8192;
  memory_len = 65536;
  memory_max = 65536;
  table = 0;
  table_count = 0;
  globals = 16384;
  global_count = 3;
  imported_funcs = 0;
  imported_func_count = 0;
  dynamic_sigindices = 0;
  dynamic_sigindice_count = 0;
}

abbrev no_resolvers : ModuleResolver
no_resolvers = record { resolvers = 0; instances = λ i. blank; resolver_count = 0 }

abbrev pub uninit : Engine
uninit = zeroed no_resolvers

abbrev loaded : Loaded
loaded = init_execution_engine machine init_global_registry unset request uninit booted

loads : loaded.err ≡ 0
unfolding init_execution_engine is_refused conclude get_module_resolver instance_loop init_body
    init_code init_memory init_pages init_mapping init_globals init_imports init_sigindices
    init_table init_stack alloc_pages
loads = refl

init_execution_engine_accounts_example :
    ((loaded.err ≡ 0) × Accounts virt 1048576 booted loaded.world loaded.ee)
    ⊎ ((loaded.err ≢ 0) × Gained virt 1048576 booted loaded.world 0)
init_execution_engine_accounts_example =
    init_execution_engine_accounts machine init_global_registry unset request uninit booted virt
      1048576 (omega arith)

destroy-init_example :
    Gained page 8388608 booted (destroy_execution_engine machine loaded.ee loaded.world) 0
destroy-init_example =
    destroy-init machine init_global_registry unset request uninit booted page 8388608 (omega arith)
      loads

-- An engine with two pages of 4096 bytes, by hand.
abbrev small : Engine
small = record uninit {
  ctx = record { memory_base = 8192; memory_bound = 8192 };
  static_memory_vm = 4096;
  memory_pages = 12288;
  memory_page = λ i. 16384 + i;
  memory_page_count = 2;
}

small-IsSized : IsSized small
small-IsSized = record { backed = refl; available = omega arith }

wasm_memory_grow_lem_example :
    Outcome 65536 small (wasm_memory_grow machine 1 small booted)
    × IsSized (wasm_memory_grow machine 1 small booted).ee
wasm_memory_grow_lem_example =
    wasm_memory_grow_lem machine 1 small booted small-IsSized (omega arith)

-- The world after the two pages of the engine were allocated.
abbrev two_allocated : World
two_allocated = record booted { log = Event.alloc page 16385 ∷ Event.alloc page 16384 ∷ [] }

in_order : Accounts page 16385 booted two_allocated small
unfolding hit total
in_order = refl

wasm_memory_grow_accounts_example :
    Fate machine page 16385 18 booted (wasm_memory_grow machine 1 small two_allocated)
wasm_memory_grow_accounts_example =
    wasm_memory_grow_accounts machine 1 small booted two_allocated page 16385 (omega arith)
      small-IsSized (omega arith) in_order

-- A kernel in which every allocation is at 1048576, and the load on it.
abbrev cramped : Kernel
cramped = record machine { allocate = λ w kind size. 1048576 }

cramped-Fits : Fits cramped
cramped-Fits = record { fits = λ w. omega arith }

abbrev loaded_cramped : Loaded
loaded_cramped = init_execution_engine cramped init_global_registry unset request uninit booted

loads_cramped : loaded_cramped.err ≡ 0
unfolding init_execution_engine is_refused conclude get_module_resolver instance_loop init_body
    init_code init_memory init_pages init_mapping init_globals init_imports init_sigindices
    init_table init_stack alloc_pages
loads_cramped = refl

init_execution_engine-HasStack_example : HasStack loaded_cramped.ee
init_execution_engine-HasStack_example =
    init_execution_engine-HasStack cramped init_global_registry unset request uninit booted
      cramped-Fits loads_cramped

-- A request with a table of two entries, each of which the user gives as offset 16 and signature 3.
abbrev tabled : LoadCodeRequest
tabled = record request { table = 32768; table_count = 2 }

abbrev table_machine : Kernel
table_machine = record machine {
  table_entry_request = λ w src. some (record { offset = 16; sig_id = 3 });
}

abbrev loaded_table : Loaded
loaded_table = init_execution_engine table_machine init_global_registry unset tabled uninit booted

loads_table : loaded_table.err ≡ 0
unfolding init_execution_engine is_refused conclude get_module_resolver instance_loop init_body
    init_code init_memory init_pages init_mapping init_globals init_imports init_sigindices
    table_loop init_table init_stack alloc_pages
loads_table = refl

init_execution_engine-HasEntry_example : HasEntry table_machine tabled 1 loaded_table.ee
init_execution_engine-HasEntry_example =
    init_execution_engine-HasEntry table_machine init_global_registry unset tabled uninit booted 1
      (omega arith) (omega arith) loads_table
