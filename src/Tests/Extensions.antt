-- ===== src/Tests/Extensions.antt =====
-- The two extensions installed, and an import linked.
use kernel_wasm.Base.{ℕ, ◌≡◌, refl, ◌≢◌, ◌⊎◌, true, none, some, [], ◌∷◌}
use kernel_wasm.Extensions.{callback, get_instance, tmp, init_module_with_symbols, cleanup_module}
use kernel_wasm.Extensions.Install.{cleanup_module-init_module}
use kernel_wasm.Kapi.Info.{ImportInfo, on_name}
use kernel_wasm.Kapi.Registry.{Registry, get_module_resolver, instance_loop}
use kernel_wasm.Kapi.Resolver.{resolve_import, resolve_loop}
use kernel_wasm.Kernel.{Kernel}
use kernel_wasm.Net.Table as NetTable
use kernel_wasm.Tests.Vm.{request}
use kernel_wasm.Vm.Engine.{LoadCodeRequest}
use kernel_wasm.Wasi.Table as WasiTable
use kernel_wasm.Tests.Machine.{machine, booted}

abbrev pub wasi_at : WasiTable.HostFn → ℕ
wasi_at WasiTable.HostFn.fd_write = 500
wasi_at _ = 400

abbrev pub net_at : NetTable.HostFn → ℕ
net_at NetTable.HostFn.bind = 900
net_at _ = 800

abbrev pub both : Registry
both = record {
  resolvers =
      record { address = 8192; inner = tmp net_at NetTable.do_resolve }
      ∷ record { address = 4096; inner = tmp wasi_at WasiTable.do_resolve }
      ∷ [];
  resolver_count = 2;
}

abbrev pub blank_info : ImportInfo ℕ
blank_info = record { fn = none; param_count = 0 }

made_ok : (get_module_resolver machine both booted).0.0 ≡ 0
unfolding get_module_resolver instance_loop get_instance
made_ok = refl

links :
    resolve_import
      (get_module_resolver machine both booted).0.1
      "wasi_unstable##fd_write"
      4
      blank_info
    ≡ some 500
unfolding get_module_resolver instance_loop get_instance resolve_import resolve_loop callback
    NetTable.do_resolve WasiTable.do_resolve on_name
links = refl

-- A module whose one import is `fd_write`, in a kernel that reads it so from the user.
abbrev pub importing_machine : Kernel
importing_machine = record machine {
  import_request = λ w src. some (record { name = "wasi_unstable##fd_write"; param_count = 4 });
}

abbrev pub importing : LoadCodeRequest
importing = record request { imported_funcs = 32768; imported_func_count = 1 }

cleanup_module-init_module_example :
    (((init_module_with_symbols wasi_at WasiTable.do_resolve true machine both booted).0.0 ≢ 0)
      × ((init_module_with_symbols wasi_at WasiTable.do_resolve true machine both booted).0.1
          ≡ none)
      × ((init_module_with_symbols wasi_at WasiTable.do_resolve true machine both booted).0.2
          ≡ both))
    ⊎ (((init_module_with_symbols wasi_at WasiTable.do_resolve true machine both booted).0.0 ≡ 0)
        × (p : ℕ) × ((init_module_with_symbols wasi_at WasiTable.do_resolve true machine both
              booted).0.1
            ≡ some p)
        × ((cleanup_module p
              (init_module_with_symbols wasi_at WasiTable.do_resolve true machine both booted).0.2
              booted).0
            ≡ both))
cleanup_module-init_module_example =
    cleanup_module-init_module wasi_at WasiTable.do_resolve true machine both booted booted
