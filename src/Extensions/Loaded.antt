-- ===== src/Extensions/Loaded.antt =====
-- What the code of a loaded engine can call when the extensions are the registered resolvers.
use kernel_wasm.Base.{ℕ, ◌+◌, ◌*◌, ◌<◌, ◌≡◌, ◌≢◌, some, length}
use kernel_wasm.Extensions.Link.{Takes, AreExtensions, resolve_import-Takes}
use kernel_wasm.Kapi.Info.{ImportInfo}
use kernel_wasm.Kapi.Registry.{Registry}
use kernel_wasm.Kernel.{Kernel, World, ImportRequest}
use kernel_wasm.Net.Table as NetTable
use kernel_wasm.Vm.Engine.{Engine, LoadCodeRequest}
use kernel_wasm.Vm.Init.{terminate}
use kernel_wasm.Vm.Linked.{init_execution_engine-IsLinked}
use kernel_wasm.Vm.Load.{init_execution_engine}
use kernel_wasm.Wasi.Table as WasiTable

-- When every registered resolver is that of wasi/ext.c or of networking/ext.c, whose functions stand at
-- the addresses given, and `init_execution_engine` returns 0 for a request with imports, then each
-- import of the engine is the address of a host function that takes, after the context, just as many
-- arguments as the import that was read from the request says.
pub init_execution_engine-Takes :
    (wasi : WasiTable.HostFn → ℕ) (net : NetTable.HostFn → ℕ) (os : Kernel) (g : Registry)
    (info : ImportInfo ℕ) (request : LoadCodeRequest) (ee : Engine) (w : World) (i : ℕ)
    → AreExtensions wasi net g.resolvers
    → g.resolver_count ≡ length g.resolvers
    → request.imported_funcs ≢ 0
    → i < request.imported_func_count
    → (init_execution_engine os g info request ee w).err ≡ 0
    → (read_in : World) × (import : ImportRequest) × (f : ℕ) × (os.import_request read_in
          (request.imported_funcs + 68 * i)
        ≡ some import)
      × ((init_execution_engine os g info request ee w).ee.imported_func i ≡ some f)
      × Takes wasi net f import.param_count
init_execution_engine-Takes wasi net os g info request ee w i all counted used within h =
    let (made, l) = init_execution_engine-IsLinked os g info request ee w i used within h in
    (
      l.read_in,
      l.import,
      l.address,
      l.was_read,
      l.linked,
      resolve_import-Takes wasi net os g w (terminate 63 l.import.name) l.import.param_count info
          l.address all counted made l.resolves,
    )
