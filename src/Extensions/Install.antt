-- ===== src/Extensions/Install.antt =====
-- The extensions' `init_module` and `cleanup_module` against the registry.
use Prim.Native.String.{String}
use kernel_wasm.Base.{
  ℕ, ◌≡◌, refl, ◌≢◌, ◌⊎◌, inl, inr, Bool, true, false, none, some, arith, Option-cases,
}
use kernel_wasm.Extensions.{tmp, init_module, init_module_with_symbols, cleanup_module}
use kernel_wasm.Kapi.Info.{Resolve}
use kernel_wasm.Kapi.Registry.{Registry, kwasm_resolver_register}
use kernel_wasm.Kapi.Registry.Counted.{deregister-register}
use kernel_wasm.Kernel.{Kernel, World}

refused_keeps :
    {F : Type 0} (addr : F → ℕ) (do_resolve : String → Resolve F) (os : Kernel) (g : Registry)
    (w : World)
    → (kwasm_resolver_register os (tmp addr do_resolve) g w).0.0 ≡ none
    → (kwasm_resolver_register os (tmp addr do_resolve) g w).0.1 ≡ g
unfolding kwasm_resolver_register
refused_keeps addr do_resolve os g w e = ground arith

-- The `init_module` of an extension either fails and leaves the registry as it was, with no pointer to
-- a resolver, or it returns 0, and `cleanup_module` with the pointer it kept brings the registry back as
-- it was.
pub cleanup_module-init_module :
    {F : Type 0} (addr : F → ℕ) (do_resolve : String → Resolve F) (found : Bool) (os : Kernel)
    (g : Registry) (w w' : World)
    → (((init_module_with_symbols addr do_resolve found os g w).0.0 ≢ 0)
        × ((init_module_with_symbols addr do_resolve found os g w).0.1 ≡ none)
        × ((init_module_with_symbols addr do_resolve found os g w).0.2 ≡ g))
      ⊎ (((init_module_with_symbols addr do_resolve found os g w).0.0 ≡ 0)
          × (p : ℕ) × ((init_module_with_symbols addr do_resolve found os g w).0.1 ≡ some p)
          × ((cleanup_module p (init_module_with_symbols addr do_resolve found os g w).0.2 w').0
              ≡ g))
unfolding init_module_with_symbols init_module cleanup_module
cleanup_module-init_module addr do_resolve false os g w w' = inl (omega arith, refl, refl)
cleanup_module-init_module addr do_resolve true os g w w' =
    elim (Option-cases (kwasm_resolver_register os (tmp addr do_resolve) g w).0.0) [
      | inl refused ↦
          let keeps = refused_keeps addr do_resolve os g w refused in
          rw (refused, init_module) (inl (omega arith, refl, keeps))
      | inr (p, e) ↦
          let back = deregister-register os (tmp addr do_resolve) g w w' p e in
          rw (e, init_module) (inr (refl, p, refl, back))
    ]
