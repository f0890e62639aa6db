-- ===== src/Kapi/Registry/Locked.antt =====
-- kapi.c: the mutex of the global registry.
use kernel_wasm.Base.{ℕ, suc, ◌-◌, ◌≡◌, List, [], ◌∷◌, arith}
use kernel_wasm.Kernel.{Kernel, World, Event}
use kernel_wasm.Kapi.Registry.{
  ImportResolver, Registry, kwasm_resolver_register, kwasm_resolver_deregister, get_module_resolver,
}

-- How often the mutex is taken and not yet given back.
abbrev pub locked : List Event → ℕ
locked [] = 0
locked (Event.lock ∷ log) = suc (locked log)
locked (Event.unlock ∷ log) = locked log - 1
locked (_ ∷ log) = locked log

-- `kwasm_resolver_register`, `kwasm_resolver_deregister` and `get_module_resolver` leave the mutex of
-- the registry as they find it, on every path, the failing ones included.
registry_unlocks :
    (os : Kernel) (resolver : ImportResolver) (p : ℕ) (g : Registry) (w : World)
    → (locked (kwasm_resolver_register os resolver g w).1.log ≡ locked w.log)
      × (locked (kwasm_resolver_deregister p g w).1.log ≡ locked w.log)
      × (locked (get_module_resolver os g w).1.log ≡ locked w.log)
unfolding kwasm_resolver_register kwasm_resolver_deregister get_module_resolver
registry_unlocks os resolver p g w = (ground arith, ground arith, ground arith)
