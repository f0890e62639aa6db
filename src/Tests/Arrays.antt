-- ===== src/Tests/Arrays.antt =====
-- The load of a module with an import and a table of two entries.
use kernel_wasm.Base.{◌≡◌, refl, arith, some}
use kernel_wasm.Extensions.{callback, get_instance}
use kernel_wasm.Kapi.Info.{on_name}
use kernel_wasm.Kapi.Registry.{get_module_resolver, instance_loop}
use kernel_wasm.Kapi.Resolver.{resolve_import, resolve_loop}
use kernel_wasm.Kernel.{Kernel}
use kernel_wasm.Net.Table as NetTable
use kernel_wasm.Tests.Extensions.{both, blank_info, importing_machine, importing}
use kernel_wasm.Tests.Machine.{booted}
use kernel_wasm.Tests.Vm.{uninit}
use kernel_wasm.Vm.Engine.{LoadCodeRequest}
use kernel_wasm.Vm.Init.{
  terminate, init_body, init_code, init_memory, init_pages, init_mapping, init_globals, import_loop,
  init_imports, init_sigindices, table_loop, init_table, init_stack,
}
use kernel_wasm.Vm.Load.{Loaded, is_refused, conclude, init_execution_engine}
use kernel_wasm.Vm.Pages.{alloc_pages}
use kernel_wasm.Vm.Reads.{ReadsImport, ReadsEntry, init_execution_engine_reads}
use kernel_wasm.Wasi.Table as WasiTable

-- Each entry of the table has offset 16 and signature 3.
abbrev table_machine : Kernel
table_machine = record importing_machine {
  table_entry_request = λ w src. some (record { offset = 16; sig_id = 3 });
}

abbrev tabled : LoadCodeRequest
tabled = record importing { table = 49152; table_count = 2 }

abbrev loaded : Loaded
loaded = init_execution_engine table_machine both blank_info tabled uninit booted

loads : loaded.err ≡ 0
unfolding init_execution_engine is_refused conclude get_module_resolver instance_loop get_instance
    init_body init_code init_memory init_pages init_mapping init_globals init_imports import_loop
    terminate resolve_import resolve_loop callback NetTable.do_resolve WasiTable.do_resolve on_name
    init_sigindices table_loop init_table init_stack alloc_pages
loads = refl

init_execution_engine_reads_example :
    ReadsImport table_machine both blank_info tabled booted 0 loaded.ee
    × ReadsEntry table_machine tabled 1 loaded.ee
init_execution_engine_reads_example =
    init_execution_engine_reads table_machine both blank_info tabled uninit booted 0 1 (omega arith)
      (omega arith) (omega arith) (omega arith) loads
