-- ===== src/Tests/Execution.antt =====
-- The code of a loaded module, run: it grows its memory and writes two buffers.
use kernel_wasm.Base.{
  ℕ, Option, ◌≡◌, refl, arith, none, [], ◌∷◌, inl, inr, Ram, put_word, get_word, false, some, ◌%◌,
  ◌≢◌, ◌⊎◌,
}
use kernel_wasm.Execution.{
  Environment, Running, ended, Call, to_wasi, call, grow, Comes, here, next,
}
use kernel_wasm.Execution.Imports.{loaded_code_enters}
use kernel_wasm.Extensions.{callback, get_instance}
use kernel_wasm.Kapi.Info.{on_name}
use kernel_wasm.Kapi.Registry.{get_module_resolver, instance_loop}
use kernel_wasm.Kapi.Resolver.{resolve_import, resolve_loop}
use kernel_wasm.Kernel.{Kernel, World, ImportRequest}
use kernel_wasm.Net.Table as NetTable
use kernel_wasm.Tests.Extensions.{wasi_at, net_at, both, blank_info, importing_machine, importing}
use kernel_wasm.Tests.Machine.{booted, zeroes}
use kernel_wasm.Tests.Net.{kernel}
use kernel_wasm.Tests.Vm.{uninit}
use kernel_wasm.Tests.Wasi.{files}
use kernel_wasm.Uapi.Ioctl.{Run, wd_ioctl, wasm_write_memory}
use kernel_wasm.Uapi.Session.{Session, Requests, Handled, attempt}
use kernel_wasm.Vm.Grow.{Grown, wasm_memory_grow, use_pages, map_grown}
use kernel_wasm.Vm.Init.{
  terminate, init_body, init_code, init_memory, init_pages, init_mapping, init_globals, import_loop,
  init_imports, init_sigindices, init_table, init_stack,
}
use kernel_wasm.Vm.Load.{Loaded, is_refused, conclude, init_execution_engine}
use kernel_wasm.Vm.Pages.{alloc_pages}
use kernel_wasm.Vm.Context.{vmctx_get_memory_slice}
use kernel_wasm.Wasi.Io
use kernel_wasm.Wasi.Host as WasiHost
use kernel_wasm.Wasi.Table as WasiTable
use kernel_wasm.Wasi.Table.{Outcome, returned, enter}

-- Areas stand below 2 ^ 40.
abbrev roomy : Kernel
roomy = record importing_machine { area_addr = λ area. area % 1099511627776 }

abbrev environment : Environment
environment = record {
  wasi = wasi_at;
  net = net_at;
  files = files;
  sockets = kernel;
  os = roomy;
  global_count = 3;
}

abbrev loaded : Loaded
loaded = init_execution_engine roomy both blank_info importing uninit booted

-- Its memory stands at 5242880. At 16 in it stands a vector of two buffers: 5 bytes at 100 and 7
-- bytes at 200.
abbrev memory : Ram
memory =
    put_word (put_word (put_word (put_word zeroes 5242896 100) 5242900 5) 5242904 200) 5242908 7

abbrev loaded_code : Running
loaded_code = record { ee = loaded.ee; ram = memory; exit_code = none }

abbrev grown_code : Running
grown_code = record {
  ee = (wasm_memory_grow roomy 1 loaded.ee (record { ram = memory; log = [] })).ee;
  ram = (wasm_memory_grow roomy 1 loaded.ee (record { ram = memory; log = [] })).world.ram;
  exit_code = none;
}

abbrev writes : WasiHost.M Outcome
writes w = let r = Io.fd_write files grown_code.ee.ctx 1 16 2 64 w in (returned r.0, r.1)

abbrev before : WasiHost.World
before = record { ram = grown_code.ram; f_pos = λ file. 0; log = [] }

abbrev written : Running
written = ended grown_code.ee (writes before)

-- The module loads, its import is `fd_write`, and the twelve bytes are counted at 64 in the memory.
evaluated :
    (loaded.err ≡ 0)
    × (grown_code.ee.imported_func 0 ≡ some 500)
    × (get_word written.ram 5242944 ≡ 12)
unfolding init_execution_engine is_refused conclude get_module_resolver instance_loop get_instance
    init_body init_code init_memory init_pages init_mapping init_globals init_imports import_loop
    terminate resolve_import resolve_loop callback NetTable.do_resolve WasiTable.do_resolve on_name
    init_sigindices init_table init_stack alloc_pages wasm_memory_grow use_pages map_grown get_word
    put_word Io.fd_write Io.fd_transfer Io.iov_loop Io.iov_round Io.account vmctx_get_memory_slice
evaluated = (refl, refl, refl)

enters :
    enter files grown_code.ee.ctx WasiTable.HostFn.fd_write (1 ∷ 16 ∷ 2 ∷ 64 ∷ []) ≡ some writes
unfolding enter
enters = refl

runs : Comes environment loaded_code written
runs = next (next here refl (grow 1 (record { ram = memory; log = [] }) refl)) refl (
    call 0 (1 ∷ 16 ∷ 2 ∷ 64 ∷ [])
      (to_wasi WasiTable.HostFn.fd_write writes before evaluated.1 enters refl))

loaded_code_enters_example :
    (read_in : World) × (import : ImportRequest) × (roomy.import_request read_in 32768
      ≡ some import)
    × ((4 ≢ import.param_count)
        ⊎ ((s' : Running) × Call environment written 0 (1 ∷ 16 ∷ 2 ∷ 64 ∷ []) s'))
loaded_code_enters_example =
    loaded_code_enters environment both blank_info importing uninit booted loaded_code written 0
      (1 ∷ 16 ∷ 2 ∷ 64 ∷ []) (inr refl, (inl refl, tt)) refl refl (omega arith) (omega arith)
      evaluated.0 refl runs

-- The session of the module. The user can have eight bytes written at 32.
abbrev session : Session
session = record { address = 8192; ready = false; ee = uninit }

abbrev users : Requests
users = record {
  load_code = λ w arg. some importing;
  memory = λ w arg. some (record { buffer = 0; offset = 32; len = 8 });
}

abbrev no_runs : World → (arg : ℕ) → Option Run
no_runs w arg = none

abbrev started : Handled
started = attempt roomy both blank_info importing session booted

-- A run in which the memory grows by a page, then a write by the user.
abbrev ran : Grown
ran = wasm_memory_grow roomy 1 started.session.ee started.world

abbrev written_by_user : Handled
written_by_user =
    wd_ioctl roomy users no_runs both blank_info wasm_write_memory 0
      (record started.session { ee = ran.ee }) ran.world
