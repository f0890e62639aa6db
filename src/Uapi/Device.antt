-- ===== src/Uapi/Device.antt =====
-- uapi.c: the device file, `uapi_init` and `uapi_cleanup`; and ext.c: `init_module` and
-- `cleanup_module` of the executor.
pub mod Undo
use kernel_wasm.Base.{ℕ, Bool, true, false, not, List, [], ◌∷◌, ◌==◌, if◌then◌else◌, neg, is_neg}
use kernel_wasm.Kapi.Registry.{Registry, init_global_registry, destroy_global_registry}
use kernel_wasm.Kernel.{World, einval}
use kernel_wasm.Vm.Kallsyms.{Statics, vm_init}

-- The calls of the device model, the last one first in a log.
pub data Call : Type 0 where
  register_chrdev unregister_chrdev : (major : ℕ) → Call
  class_create class_unregister class_destroy : (class : ℕ) → Call
  device_create : (device : ℕ) → Call
  device_destroy : (major : ℕ) → Call

-- The static variables of uapi.c, with the log.
pub record Device : Type 0 where
  pub major_number : ℕ
  pub dev_class : ℕ
  pub dev_handle : ℕ
  pub uapi_initialized : Bool
  pub log : List Call

-- The kernel's part: what its calls return, and the error pointers.
pub record Devices : Type 0 where
  pub register_chrdev : Device → ℕ
  pub class_create : Device → ℕ
  pub device_create : Device → ℕ
  pub is_err : (p : ℕ) → Bool
  pub ptr_err : (p : ℕ) → ℕ

abbrev did : Call → Device → Device
did c d = record d { log = c ∷ d.log }

module _ (os : Devices) where
  -- `uapi_init` from `device_create` on.
  unfoldable pub create_device : Device → ℕ × Device
  create_device d =
      let device = os.device_create d in
      let d₁ = record d { dev_handle = device } in
      if os.is_err device
      then (
        os.ptr_err device,
        did (Call.unregister_chrdev d.major_number) (did (Call.class_destroy d.dev_class) d₁),
      )
      else (0, record (did (Call.device_create device) d₁) { uapi_initialized = true })

  -- `uapi_init` from `class_create` on.
  unfoldable pub create_class : Device → ℕ × Device
  create_class d =
      let class = os.class_create d in
      let d₁ = record d { dev_class = class } in
      if os.is_err class
      then (os.ptr_err class, did (Call.unregister_chrdev d.major_number) d₁)
      else create_device (did (Call.class_create class) d₁)

  -- `uapi_init`.
  unfoldable pub uapi_init : Device → ℕ × Device
  uapi_init d =
      let major = os.register_chrdev d in
      let d₁ = record d { major_number = major } in
      if is_neg major then (major, d₁) else create_class (did (Call.register_chrdev major) d₁)

-- `uapi_cleanup`.
unfoldable pub uapi_cleanup : Device → Device
uapi_cleanup d =
    if not d.uapi_initialized
    then d
    else did (Call.unregister_chrdev d.major_number) (
        did (Call.class_destroy d.dev_class)
          (did (Call.class_unregister d.dev_class) (did (Call.device_destroy d.major_number) d)))

-- The executor: the device, the registry and the world of kapi.c.
pub record Executor : Type 0 where
  pub device : Device
  pub registry : Registry
  pub world : World
  pub statics : Statics

-- `init_module` of ext.c.
unfoldable pub init_executor : Devices → (found : Statics) → Executor → ℕ × Executor
init_executor os found x =
    let (ret, d) = uapi_init os x.device in
    if not (ret == 0)
    then (neg einval, record x { device = d })
    else let (err, statics) = vm_init found in
      if err == 0
      then (0, record x { device = d; registry = init_global_registry; statics = statics })
      else (
        neg einval,
        record {
          device = uapi_cleanup d;
          registry = init_global_registry;
          world = destroy_global_registry [] x.world;
          statics = statics;
        },
      )

-- `cleanup_module` of ext.c; the static registry keeps its pointers to the freed entries.
unfoldable pub cleanup_executor : Executor → Executor
cleanup_executor x = record x {
  device = uapi_cleanup x.device;
  world = destroy_global_registry x.registry.resolvers x.world;
}
