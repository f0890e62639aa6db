-- ===== src/Kapi/Registry.antt =====
-- kapi.c: the global registry of resolvers, and the instances made from it.
pub mod Counted
pub mod Locked
use kernel_wasm.Base.{
  ℕ, ◌+◌, ◌-◌, ◌*◌, Option, none, some, List, [], ◌∷◌, ◌==◌, if◌then◌else◌, not, neg, update,
}
use kernel_wasm.Kernel.{Kernel, World, Event, emit, heap, call_alloc, enomem}
use kernel_wasm.Kapi.Resolver.{Instance, ModuleResolver, blank}

-- `struct import_resolver`: `get_instance` returns an error and what it leaves in `out`. What it may
-- allocate for its instance is not modelled.
pub record ImportResolver : Type 0 where
  pub get_instance : World → Instance → ℕ × Instance
  pub private_data : ℕ

-- `struct resolver_entry`, with the address of it and of `inner`, its first field.
pub record Entry : Type 0 where
  pub address : ℕ
  pub inner : ImportResolver

-- `struct registry`, with its list from the head on; the mutex is in the log.
pub record Registry : Type 0 where
  pub resolvers : List Entry
  pub resolver_count : ℕ

-- `init_global_registry`.
abbrev pub init_global_registry : Registry
init_global_registry = record { resolvers = []; resolver_count = 0 }

-- `destroy_global_registry`: an entry is freed once the loop has moved past it.
unfoldable pub destroy_global_registry : List Entry → World → World
destroy_global_registry [] w = w
destroy_global_registry (e ∷ entries) w =
    destroy_global_registry entries (emit (Event.free heap e.address) w)

-- `kwasm_resolver_register`: `none` for `ERR_PTR(-ENOMEM)`, else the address of the entry.
unfoldable pub kwasm_resolver_register :
    Kernel → ImportResolver → Registry → World → (Option ℕ × Registry) × World
kwasm_resolver_register os resolver g w =
    let (p, w₁) = call_alloc os heap 32 w in
    if p == 0 then ((none, g), w₁) else (
      (
        some p,
        record {
          resolvers = record { address = p; inner = resolver } ∷ g.resolvers;
          resolver_count = g.resolver_count + 1;
        },
      ),
      emit Event.unlock (emit Event.lock w₁),
    )

-- `list_del` of the entry at an address.
unfoldable pub list_del : ℕ → List Entry → List Entry
list_del p [] = []
list_del p (e ∷ entries) =
    let rest = list_del p entries in if e.address == p then entries else e ∷ rest

-- `kwasm_resolver_deregister`.
unfoldable pub kwasm_resolver_deregister : (resolver : ℕ) → Registry → World → Registry × World
unfolding list_del
kwasm_resolver_deregister p g w = (
  record { resolvers = list_del p g.resolvers; resolver_count = g.resolver_count - 1 },
  emit Event.unlock (emit (Event.free heap p) (emit Event.lock w)),
)

-- The loop of `get_module_resolver`: the error of the first resolver that fails, 0 if none does, and
-- the instances written.
unfoldable pub instance_loop : World → List Entry → (i : ℕ) → (ℕ → Instance) → ℕ × (ℕ → Instance)
instance_loop w [] i instances = (0, instances)
instance_loop w (e ∷ entries) i instances =
    let (err, inst) = e.inner.get_instance w blank in
    let rest = instance_loop w entries (i + 1) (update instances i inst) in
    if not (err == 0) then (err, update instances i inst) else rest

-- `get_module_resolver`, on an `out` of zeroes, as its caller passes it.
unfoldable pub get_module_resolver : Kernel → Registry → World → (ℕ × ModuleResolver) × World
get_module_resolver os g w =
    let (p, w₁) = call_alloc os heap (24 * g.resolver_count) (emit Event.lock w) in
    let none_yet : ModuleResolver = record {
      resolvers = 0;
      instances = λ i. blank;
      resolver_count = 0;
    } in
    if p == 0
    then ((neg enomem, none_yet), emit Event.unlock w₁)
    else let (err, instances) = instance_loop w₁ g.resolvers 0 (λ i. blank) in
      if not (err == 0)
      then ((err, none_yet), emit Event.unlock (emit (Event.free heap p) w₁))
      else (
        (0, record { resolvers = p; instances = instances; resolver_count = g.resolver_count }),
        emit Event.unlock w₁,
      )
