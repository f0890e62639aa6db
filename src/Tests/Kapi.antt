-- ===== src/Tests/Kapi.antt =====
-- The registry of kapi.c, run.
use Prim.Native.String.{String}
use kernel_wasm.Base.{
  ℕ, ◌≡◌, refl, ◌≢◌, ◌⊎◌, ◌<◌, ◌≤◌, true, none, some, [], ◌∷◌, length, ◌==◌, if◌then◌else◌,
}
use kernel_wasm.Kapi.Info.{ImportInfo, resolved, refused, on_name}
use kernel_wasm.Kapi.Resolver.{ModuleResolver, blank, resolve_loop, resolve_import}
use kernel_wasm.Kapi.Resolver.First.{First, resolve_import-First}
use kernel_wasm.Kapi.Registry.{
  ImportResolver, Registry, init_global_registry, kwasm_resolver_register, get_module_resolver,
}
use kernel_wasm.Kapi.Registry.Counted.{
  Reachable, registry_counted, instance_at, made, get_module_resolver_fills,
}
use kernel_wasm.Tests.Machine.{machine, booted}

-- A resolver that knows one function, at an address.
abbrev knows : (name : String) (fn params : ℕ) → ImportResolver
knows text fn params = record {
  get_instance = λ w out. (
    0,
    record {
      resolve = some (λ name. on_name name text (resolved fn params) refused);
      release = true;
      private_data = fn;
    },
  );
  private_data = fn;
}

abbrev one : Registry
one = (kwasm_resolver_register machine (knows "a##x" 10 1) init_global_registry booted).0.1

abbrev two : Registry
two = record {
  resolvers =
      record { address = 2097152; inner = knows "a##y" 20 2 }
      ∷ record { address = 1048576; inner = knows "a##x" 10 1 }
      ∷ [];
  resolver_count = 2;
}

abbrev instances : ModuleResolver
instances = record {
  resolvers = 4096;
  instances = λ i.
      if i == 0
      then (((knows "a##y" 20 2).get_instance booted blank).1)
      else (((knows "a##x" 10 1).get_instance booted blank).1);
  resolver_count = 2;
}

abbrev unset : ImportInfo ℕ
unset = record { fn = none; param_count = 0 }

-- The second instance resolves the name, and a wrong parameter count is refused.
found : resolve_import instances "a##x" 1 unset ≡ some 10
unfolding resolve_import resolve_loop on_name
found = refl

miscounted : resolve_import instances "a##x" 2 unset ≡ none
unfolding resolve_import resolve_loop on_name
miscounted = refl

resolve_import-First_example : First instances "a##x" 1 10 0 2
resolve_import-First_example = resolve_import-First instances "a##x" 1 unset 10 found

registry_counted_example : one.resolver_count ≡ length one.resolvers
registry_counted_example =
    registry_counted machine one (Reachable.register (knows "a##x" 10 1) booted Reachable.start)

get_module_resolver_fills_example :
    (((get_module_resolver machine two booted).0.0 ≢ 0)
      × ((get_module_resolver machine two booted).0.1.resolvers ≡ 0))
    ⊎ (((get_module_resolver machine two booted).0.0 ≡ 0)
        × ((get_module_resolver machine two booted).0.1.resolver_count ≡ length two.resolvers)
        × (((1 < length two.resolvers)
              × ((get_module_resolver machine two booted).0.1.instances 1
                  ≡ instance_at (made machine two booted) two.resolvers 1))
            ⊎ ((length two.resolvers ≤ 1)
                × ((get_module_resolver machine two booted).0.1.instances 1 ≡ blank))))
get_module_resolver_fills_example = get_module_resolver_fills machine two booted 1 refl
