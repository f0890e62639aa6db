-- ===== src/Kapi/Registry/Counted.antt =====
-- kapi.c: what register, deregister and the making of instances keep true of the registry.
use kernel_wasm.Base.{
  ℕ, zero, suc, ◌+◌, ◌-◌, ◌*◌, ◌≤◌, ◌<◌, ◌≡◌, refl, ◌≢◌, ◌⊎◌, inl, inr, some, List, [], ◌∷◌, arith,
  ◌==◌, length, ltb, update, Bool-cases, if◌then◌else◌,
}
use kernel_wasm.Kernel.{Kernel, World, Event, call_alloc, heap, emit}
use kernel_wasm.Kapi.Resolver.{Instance, blank}
use kernel_wasm.Kapi.Registry.{
  ImportResolver, Entry, Registry, init_global_registry, kwasm_resolver_register, list_del,
  kwasm_resolver_deregister, instance_loop, get_module_resolver,
}

-- How many entries stand at an address.
abbrev pub entries_at : ℕ → List Entry → ℕ
entries_at p [] = 0
entries_at p (e ∷ entries) = (if e.address == p then 1 else 0) + entries_at p entries

-- The registries that calls of the two exported functions make from the one that is set up; what is
-- deregistered is registered.
pub data Reachable (os : Kernel) : Registry → Type 0 where
  start : Reachable os init_global_registry
  register :
      {g : Registry} (resolver : ImportResolver) (w : World)
      → Reachable os g
      → Reachable os (kwasm_resolver_register os resolver g w).0.1
  deregister :
      {g : Registry} (p : ℕ) (w : World)
      → Reachable os g
      → 0 < entries_at p g.resolvers
      → Reachable os (kwasm_resolver_deregister p g w).0

list_del-length :
    (p : ℕ) (entries : List Entry)
    → 0 < entries_at p entries
    → length entries ≡ suc (length (list_del p entries))
unfolding list_del
list_del-length p [] h = absurd (omega arith)
list_del-length p (e ∷ entries) h = ground (arith, list_del-length p entries)

list_del-entries_at :
    (p q : ℕ) (entries : List Entry)
    → entries_at q (list_del p entries) ≡ entries_at q entries - (if p == q then 1 else 0)
unfolding list_del
list_del-entries_at p q [] = ground arith
list_del-entries_at p q (e ∷ entries) = ground (arith, list_del-entries_at p q entries)

-- Through any calls of register and deregister, `resolver_count`, by which the array of instances is
-- allocated, is the number of entries that are on the list.
pub registry_counted :
    (os : Kernel) (g : Registry) → Reachable os g → g.resolver_count ≡ length g.resolvers
unfolding kwasm_resolver_register kwasm_resolver_deregister
registry_counted os g start = refl
registry_counted os g (register resolver w reach) = ground (arith, registry_counted os _ reach)
registry_counted os g (deregister p w reach h) =
    ground (arith, registry_counted os _ reach, list_del-length p _ h)

-- Deregistering what was just registered gives the registry back as it was.
pub deregister-register :
    (os : Kernel) (resolver : ImportResolver) (g : Registry) (w w' : World) (p : ℕ)
    → (kwasm_resolver_register os resolver g w).0.0 ≡ some p
    → (kwasm_resolver_deregister p (kwasm_resolver_register os resolver g w).0.1 w').0 ≡ g
unfolding kwasm_resolver_register kwasm_resolver_deregister list_del
deregister-register os resolver g w w' p h = ground arith

-- Deregistering an address takes one entry at it off the list, if there is one, and none at another.
deregister_takes_one :
    (g : Registry) (w : World) (p q : ℕ)
    → entries_at q (kwasm_resolver_deregister p g w).0.resolvers
      ≡ entries_at q g.resolvers - (if p == q then 1 else 0)
unfolding kwasm_resolver_deregister
deregister_takes_one g w p q = list_del-entries_at p q g.resolvers

-- Where `get_module_resolver` calls the entries: its array is allocated, under the mutex.
abbrev pub made : Kernel → Registry → World → World
made os g w = (call_alloc os heap (24 * g.resolver_count) (emit Event.lock w)).1

-- What the `j`-th entry's `get_instance` returned, on a zeroed instance.
abbrev pub instance_at : World → List Entry → ℕ → Instance
instance_at w [] j = blank
instance_at w (e ∷ entries) zero = (e.inner.get_instance w blank).1
instance_at w (e ∷ entries) (suc j) = instance_at w entries j

instance_loop-outside :
    (w : World) (entries : List Entry) (i : ℕ) (instances : ℕ → Instance) (j : ℕ)
    → (j < i) ⊎ (i + length entries ≤ j)
    → (instance_loop w entries i instances).1 j ≡ instances j
unfolding instance_loop
instance_loop-outside w [] i instances j out = refl
instance_loop-outside w (e ∷ entries) i instances j out =
    let here = e.inner.get_instance w blank in
    ground (arith, instance_loop-outside w entries (i + 1) (update instances i here.1) j)

instance_loop-instance_at :
    (w : World) (entries : List Entry) (i : ℕ) (instances : ℕ → Instance)
    → (instance_loop w entries i instances).0 ≡ 0
    → (j : ℕ) → j < length entries
    → (instance_loop w entries i instances).1 (i + j) ≡ instance_at w entries j
unfolding instance_loop
instance_loop-instance_at w [] i instances h j lt = absurd (omega arith)
instance_loop-instance_at w (e ∷ entries) i instances h zero lt =
    let here = e.inner.get_instance w blank in
    ground (arith, instance_loop-outside w entries (i + 1) (update instances i here.1) i)
instance_loop-instance_at w (e ∷ entries) i instances h (suc j) lt =
    let here = e.inner.get_instance w blank in
    let same : i + suc j ≡ i + 1 + j = omega arith in
    let later = instance_loop-instance_at w entries (i + 1) (update instances i here.1) in
    rw same (ground (arith, λ (ok : here.0 ≡ 0). later (ground arith) j (omega arith)))

-- On a registry whose count is right, `get_module_resolver` either fails and leaves no array, or it
-- succeeds with as many instances as there are entries. Then the `j`-th is as the `j`-th entry's
-- `get_instance` made it from a zeroed one, or `j` is past the end of the allocated array and nothing
-- was written there.
pub get_module_resolver_fills :
    (os : Kernel) (g : Registry) (w : World) (j : ℕ)
    → g.resolver_count ≡ length g.resolvers
    → (((get_module_resolver os g w).0.0 ≢ 0) × ((get_module_resolver os g w).0.1.resolvers ≡ 0))
      ⊎ (((get_module_resolver os g w).0.0 ≡ 0)
          × ((get_module_resolver os g w).0.1.resolver_count ≡ length g.resolvers)
          × (((j < length g.resolvers)
                × ((get_module_resolver os g w).0.1.instances j
                    ≡ instance_at (made os g w) g.resolvers j))
              ⊎ ((length g.resolvers ≤ j)
                  × ((get_module_resolver os g w).0.1.instances j ≡ blank))))
unfolding get_module_resolver
get_module_resolver_fills os g w j counted =
    let w₁ = made os g w in
    let filled = instance_loop w₁ g.resolvers 0 (λ i. blank) in
    elim (Bool-cases (os.allocate (emit Event.lock w) heap (24 * g.resolver_count) == 0)) [
      | inl null ↦ rw null (inl (omega arith, refl))
      | inr given ↦ rw given (elim (Bool-cases (filled.0 == 0)) [
        | inl ok ↦ rw ok (
            inr (
              refl,
              counted,
              elim (Bool-cases (ltb j (length g.resolvers))) [
                | inl within ↦
                    (let lt : j < length g.resolvers = ground arith in
                      let no_offset : 0 + j ≡ j = omega arith in
                      inl (
                        lt,
                        rw no_offset at (
                            instance_loop-instance_at w₁ g.resolvers 0 (λ i. blank) (ground arith) j
                              lt),
                      ))
                | inr past ↦
                    (let le : length g.resolvers ≤ j = ground arith in
                      inr (
                        le,
                        instance_loop-outside w₁ g.resolvers 0 (λ i. blank) j
                            (inr (omega (arith, le))),
                      ))
              ],
            ))
        | inr failed ↦ rw failed (inl (ground arith, refl))
      ])
    ]
