-- ===== src/Uapi/Device/Undo.antt =====
-- What the set-up of the device leaves when it fails, and what the cleanup gives back.
use kernel_wasm.Base.{ℕ, ◌≡◌, ◌≢◌, ◌⊎◌, true, false, List, [], ◌∷◌, arith}
use kernel_wasm.Uapi.Device.{
  Call, Device, Devices, uapi_init, create_class, create_device, uapi_cleanup, Executor,
  init_executor, cleanup_executor,
}
use kernel_wasm.Vm.Kallsyms.{Statics, vm_init, IsFound}

-- The numbers that were registered, and those that were unregistered, the last one first.
abbrev pub numbers_made : List Call → List ℕ
numbers_made [] = []
numbers_made (Call.register_chrdev major ∷ log) = major ∷ numbers_made log
numbers_made (_ ∷ log) = numbers_made log

abbrev pub numbers_given : List Call → List ℕ
numbers_given [] = []
numbers_given (Call.unregister_chrdev major ∷ log) = major ∷ numbers_given log
numbers_given (_ ∷ log) = numbers_given log

-- The classes that were made, and those that were unregistered, which `class_destroy` does too.
abbrev pub classes_made : List Call → List ℕ
classes_made [] = []
classes_made (Call.class_create class ∷ log) = class ∷ classes_made log
classes_made (_ ∷ log) = classes_made log

abbrev pub classes_given : List Call → List ℕ
classes_given [] = []
classes_given (Call.class_unregister class ∷ log) = class ∷ classes_given log
classes_given (Call.class_destroy class ∷ log) = class ∷ classes_given log
classes_given (_ ∷ log) = classes_given log

-- The devices that were made, and the numbers of those that were destroyed.
abbrev pub devices_made : List Call → List ℕ
devices_made [] = []
devices_made (Call.device_create device ∷ log) = device ∷ devices_made log
devices_made (_ ∷ log) = devices_made log

abbrev pub devices_given : List Call → List ℕ
devices_given [] = []
devices_given (Call.device_destroy major ∷ log) = major ∷ devices_given log
devices_given (_ ∷ log) = devices_given log

-- From `d` to `d'` a number, a class and a device were made, those that `d'` holds, and none given back.
abbrev pub IsMade : Device → Device → Type 0
IsMade d d' =
    (numbers_made d'.log ≡ d'.major_number ∷ numbers_made d.log)
    × (numbers_given d'.log ≡ numbers_given d.log)
    × (classes_made d'.log ≡ d'.dev_class ∷ classes_made d.log)
    × (classes_given d'.log ≡ classes_given d.log)
    × (devices_made d'.log ≡ d'.dev_handle ∷ devices_made d.log)
    × (devices_given d'.log ≡ devices_given d.log)

-- No device was made or destroyed, and the number and the class that were made, if any, were each given
-- back once.
abbrev pub IsUndone : Device → Device → Type 0
IsUndone d d' =
    (((numbers_made d'.log ≡ numbers_made d.log) × (numbers_given d'.log ≡ numbers_given d.log))
      ⊎ ((numbers_made d'.log ≡ d'.major_number ∷ numbers_made d.log)
          × (numbers_given d'.log ≡ d'.major_number ∷ numbers_given d.log)))
    × (((classes_made d'.log ≡ classes_made d.log) × (classes_given d'.log ≡ classes_given d.log))
        ⊎ ((classes_made d'.log ≡ d'.dev_class ∷ classes_made d.log)
            × (classes_given d'.log ≡ d'.dev_class ∷ classes_given d.log)))
    × (devices_made d'.log ≡ devices_made d.log)
    × (devices_given d'.log ≡ devices_given d.log)

-- One number, one class and one device were made; the number was unregistered once and the device
-- destroyed once, but the class was unregistered twice.
abbrev pub IsTornDown : Device → Device → Type 0
IsTornDown d d' =
    (numbers_made d'.log ≡ d'.major_number ∷ numbers_made d.log)
    × (numbers_given d'.log ≡ d'.major_number ∷ numbers_given d.log)
    × (classes_made d'.log ≡ d'.dev_class ∷ classes_made d.log)
    × (classes_given d'.log ≡ d'.dev_class ∷ d'.dev_class ∷ classes_given d.log)
    × (devices_made d'.log ≡ d'.dev_handle ∷ devices_made d.log)
    × (devices_given d'.log ≡ d'.major_number ∷ devices_given d.log)

-- `uapi_init`, on a device that is not set up, ends in one of two ways. Either it returns 0, the device
-- is set up, and a number, a class and a device were made and none given back; `uapi_cleanup` then
-- unregisters the number and destroys the device, once each, and unregisters the class twice. Or the
-- device is not set up, no device was made, and each number and class that was made was given back once.
pub uapi_init-uapi_cleanup :
    (os : Devices) (d : Device)
    → d.uapi_initialized ≡ false
    → (((uapi_init os d).0 ≡ 0)
        × ((uapi_init os d).1.uapi_initialized ≡ true)
        × IsMade d (uapi_init os d).1
        × IsTornDown d (uapi_cleanup (uapi_init os d).1))
      ⊎ (((uapi_init os d).1.uapi_initialized ≡ false) × IsUndone d (uapi_init os d).1)
unfolding uapi_init create_class create_device uapi_cleanup
uapi_init-uapi_cleanup os d fresh = ground arith

-- The device after `register_chrdev` and after `class_create`, where these work.
abbrev registered : Devices → Device → Device
registered os d =
    let major = os.register_chrdev d in
    record d { major_number = major; log = Call.register_chrdev major ∷ d.log }

abbrev classed : Devices → Device → Device
classed os d =
    let d₁ = registered os d in
    let class = os.class_create d₁ in
    record d₁ { dev_class = class; log = Call.class_create class ∷ d₁.log }

init_failed :
    (os : Devices) (d : Device)
    → d.uapi_initialized ≡ false
    → (uapi_init os d).0 ≢ 0
    → IsUndone d (uapi_init os d).1
unfolding uapi_init create_class create_device
init_failed os d fresh h = ground arith

init_worked :
    (os : Devices) (d : Device)
    → ((p : ℕ) → os.is_err p ≡ true → os.ptr_err p ≢ 0)
    → (uapi_init os d).0 ≡ 0
    → IsMade d (uapi_init os d).1 × IsTornDown d (uapi_cleanup (uapi_init os d).1)
unfolding uapi_init create_class create_device uapi_cleanup
init_worked os d errors h =
    ground
      (arith, errors (os.class_create (registered os d)), errors (os.device_create (classed os d)))

vm_init-cases :
    (found : Statics)
    → ((vm_init found).0 ≢ 0) ⊎ (((vm_init found).0 ≡ 0) × IsFound (vm_init found).1)
unfolding vm_init
vm_init-cases found = ground arith

-- `init_module` of ext.c, where `PTR_ERR` of an error pointer is not 0, ends in one of three ways. It
-- fails because `uapi_init` failed, and each number and class that was made was given back once. It fails
-- because a function was not found, and the device was torn down by `uapi_cleanup`, which unregisters the
-- class twice. Or it returns 0, `vm_init` found every function that vm.c calls through a pointer, the
-- device is set up, and `cleanup_module` tears it down in the same way.
pub cleanup_executor-init_executor :
    (os : Devices) (found : Statics) (x : Executor)
    → x.device.uapi_initialized ≡ false
    → ((p : ℕ) → os.is_err p ≡ true → os.ptr_err p ≢ 0)
    → (((init_executor os found x).0 ≢ 0)
        × (((uapi_init os x.device).0 ≢ 0) × IsUndone x.device (init_executor os found x).1.device
            ⊎ ((uapi_init os x.device).0 ≡ 0)
              × IsTornDown x.device (init_executor os found x).1.device))
      ⊎ (((init_executor os found x).0 ≡ 0)
          × IsFound (init_executor os found x).1.statics
          × IsMade x.device (init_executor os found x).1.device
          × IsTornDown x.device (cleanup_executor (init_executor os found x).1).device)
unfolding init_executor cleanup_executor
cleanup_executor-init_executor os found x fresh errors =
    ground
      (arith, init_failed os x.device fresh, init_worked os x.device errors, vm_init-cases found)
