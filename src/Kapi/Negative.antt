-- ===== src/Kapi/Negative.antt =====
-- kapi.c: `get_module_resolver` fails with a negative `int` if the resolvers do.
use kernel_wasm.Base.{ℕ, ◌+◌, ◌*◌, ◌^◌, ◌≤◌, ◌≢◌, List, [], ◌∷◌, arith, update}
use kernel_wasm.Kapi.Registry.{Registry, Entry, get_module_resolver, instance_loop}
use kernel_wasm.Kapi.Resolver.{Instance, blank}
use kernel_wasm.Kernel.{Kernel, World, Event, heap, emit, call_alloc}

-- A resolver whose `get_instance` reports each failure by a negative `int`.
pub record IsNegative (e : Entry) : Type 0 where
  pub negative :
      (w : World) (out : Instance)
      → (e.inner.get_instance w out).0 ≢ 0
      → 2 ^ 31 ≤ (e.inner.get_instance w out).0

abbrev pub AreNegative : List Entry → Type 0
AreNegative [] = Unit {0}
AreNegative (e ∷ entries) = IsNegative e × AreNegative entries

instance_loop-negative :
    (w : World) (entries : List Entry) (i : ℕ) (instances : ℕ → Instance)
    → AreNegative entries
    → (instance_loop w entries i instances).0 ≢ 0
    → 2 ^ 31 ≤ (instance_loop w entries i instances).0
unfolding instance_loop
instance_loop-negative w [] i instances all h = absurd (omega arith)
instance_loop-negative w (e ∷ entries) i instances all h = ground (
  arith,
  all.0.negative w blank,
  instance_loop-negative w entries (i + 1) (update instances i (e.inner.get_instance w blank).1)
      all.1,
)

pub get_module_resolver-negative :
    (os : Kernel) (g : Registry) (w : World)
    → AreNegative g.resolvers
    → (get_module_resolver os g w).0.0 ≢ 0
    → 2 ^ 31 ≤ (get_module_resolver os g w).0.0
unfolding get_module_resolver
get_module_resolver-negative os g w all h =
    let w₁ = (call_alloc os heap (24 * g.resolver_count) (emit Event.lock w)).1 in
    ground (arith, instance_loop-negative w₁ g.resolvers 0 (λ i. blank) all)
