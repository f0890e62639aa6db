-- ===== src/Execution/Imports.antt =====
-- What compiled code meets when it calls an import.
use kernel_wasm.Base.{
  ℕ, ◌+◌, ◌*◌, ◌<◌, ◌%◌, ◌≡◌, ◌≢◌, refl, sym, ◌==◌, ◌⊎◌, Bool-cases, inl, inr, some, is_some, true,
  List, length, arith, Option-cases, Option,
}
use kernel_wasm.Execution.{Environment, Running, Call, to_wasi, to_net, Comes}
use kernel_wasm.Execution.Keeps.{Comes-Continues}
use kernel_wasm.Extensions.Link.{Takes, AreExtensions}
use kernel_wasm.Extensions.Loaded.{init_execution_engine-Takes}
use kernel_wasm.Kapi.Info.{ImportInfo}
use kernel_wasm.Kapi.Registry.{Registry}
use kernel_wasm.Kernel.{World, ImportRequest, page_size}
use kernel_wasm.Net.Table as NetTable
use kernel_wasm.Vm.Engine.{Engine, LoadCodeRequest}
use kernel_wasm.Vm.Load.{init_execution_engine}
use kernel_wasm.Vm.Sized.{init_execution_engine-IsBacked}
use kernel_wasm.Wasi.Table as WasiTable

is_some-some : {A : Type 0} (o : Option A) → is_some o ≡ true → (a : A) × (o ≡ some a)
is_some-some o h = elim (Option-cases o) [ inl nothing ↦ absurd (ground arith) | inr found ↦ found ]

-- An import that takes `n` arguments is entered when it gets them.
Takes-Call :
    (env : Environment) (s : Running) (i f n : ℕ) (args : List ℕ)
    → s.ee.imported_func i ≡ some f
    → Takes env.wasi env.net f n
    → length args ≡ n
    → (s' : Running) × Call env s i args s'
Takes-Call env s i f n args linked (inl (fn, at, takes)) count =
    let (m, entered) =
      is_some-some (WasiTable.enter env.files s.ee.ctx fn args)
        ((takes env.files s.ee.ctx args).1 count) in
    (
      _,
      to_wasi fn m (record { ram = s.ram; f_pos = λ file. 0; log = List.[] }) (rw (sym at) linked)
          entered refl,
    )
Takes-Call env s i f n args linked (inr (fn, at, takes)) count =
    let (m, entered) =
      is_some-some (NetTable.enter env.sockets s.ee.ctx fn args)
        ((takes env.sockets s.ee.ctx args).1 count) in
    (
      _,
      to_net fn m (record { ram = s.ram; addr_limit = 0; log = List.[] }) (rw (sym at) linked)
          entered refl,
    )

-- When every registered resolver is that of wasi/ext.c or of networking/ext.c and
-- `init_execution_engine` returns 0 for a request with imports and a memory whose length is a multiple
-- of the page size, then in whatever state the loaded code comes to, a call of an import that has just
-- as many arguments as the request says for it enters a function of one of the two extensions.
pub loaded_code_enters :
    (env : Environment) (g : Registry) (info : ImportInfo ℕ) (request : LoadCodeRequest)
    (ee : Engine) (w : World) (start s : Running) (i : ℕ) (args : List ℕ)
    → AreExtensions env.wasi env.net g.resolvers
    → g.resolver_count ≡ length g.resolvers
    → request.memory_len % page_size ≡ 0
    → request.imported_funcs ≢ 0
    → i < request.imported_func_count
    → (init_execution_engine env.os g info request ee w).err ≡ 0
    → start.ee ≡ (init_execution_engine env.os g info request ee w).ee
    → Comes env start s
    → (read_in : World) × (import : ImportRequest) × (env.os.import_request read_in
          (request.imported_funcs + 68 * i)
        ≡ some import)
      × ((length args ≢ import.param_count) ⊎ ((s' : Running) × Call env s i args s'))
loaded_code_enters env g info request ee w start s i args all counted whole used below loaded fresh
      comes =
    let (read_in, import, f, was_read, linked, takes) =
      init_execution_engine-Takes env.wasi env.net env.os g info request ee w i all counted used
        below loaded in
    let k =
      Comes-Continues env
        (rw fresh (init_execution_engine-IsBacked env.os g info request ee w whole loaded)) comes in
    let same = k.same in
    (
      read_in,
      import,
      was_read,
      elim (Bool-cases (length args == import.param_count)) [
        | inl just ↦ inr (
            Takes-Call env s i f import.param_count args (rw (same.2, fresh) linked) takes
              (ground arith))
        | inr other ↦ inl (ground arith)
      ],
    )
