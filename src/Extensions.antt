-- ===== src/Extensions.antt =====
-- wasi/ext.c and networking/ext.c as kernel modules: `get_instance`, `init_module` and
-- `cleanup_module`, which hand the functions of `do_resolve` to the registry of kapi.c.
pub mod Link
pub mod Loaded
pub mod Install
use Prim.Native.String.{String}
use kernel_wasm.Base.{ℕ, Bool, Option, none, some, ◌==◌, if◌then◌else◌, not, neg}
use kernel_wasm.Kapi.Info.{ImportInfo, Resolve}
use kernel_wasm.Kapi.Registry.{
  ImportResolver, Registry, kwasm_resolver_register, kwasm_resolver_deregister,
}
use kernel_wasm.Kapi.Resolver.{Instance}
use kernel_wasm.Kernel.{Kernel, World, einval, enomem}

-- A pointer to a host function is its address.
abbrev pub pointer {ℓ} : {F : Type ℓ} → (F → ℕ) → Option F → Option ℕ
pointer addr none = none
pointer addr (some fn) = some (addr fn)

module _ {F : Type 0} (addr : F → ℕ) (do_resolve : String → Resolve F) where
  -- `do_resolve` as a callback, which writes addresses.
  unfoldable pub callback : String → Resolve ℕ
  callback name out =
      let r = do_resolve name (record { fn = none; param_count = 0 }) in
      if r.0 == 0
      then (0, record { fn = pointer addr r.1.fn; param_count = r.1.param_count })
      else (r.0, out)

  -- `get_instance`.
  unfoldable pub get_instance : World → Instance → ℕ × Instance
  unfolding callback
  get_instance w out = (0, record out { resolve = some callback })

  -- The `tmp` of `init_module`; its other fields are 0.
  abbrev pub tmp : ImportResolver
  tmp = record { get_instance = get_instance; private_data = 0 }

  -- `init_module` of wasi/ext.c: what it returns, and the pointer `resolver`.
  unfoldable pub init_module : Kernel → Registry → World → (ℕ × Option ℕ × Registry) × World
  init_module os g w =
      let ((resolver, g'), w') = kwasm_resolver_register os tmp g w in
      elim resolver [ none ↦ ((neg enomem, none, g'), w') | some p ↦ ((0, some p, g'), w') ]

  -- `init_module` of networking/ext.c, where `found` tells if each kernel symbol was found.
  unfoldable pub init_module_with_symbols :
      (found : Bool) → Kernel → Registry → World → (ℕ × Option ℕ × Registry) × World
  init_module_with_symbols found os g w =
      if not found then ((neg einval, none, g), w) else init_module os g w

-- `cleanup_module`.
unfoldable pub cleanup_module : (resolver : ℕ) → Registry → World → Registry × World
cleanup_module resolver g w = kwasm_resolver_deregister resolver g w
