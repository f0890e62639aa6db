-- ===== src/Tests/Device.antt =====
-- The device of uapi.c and the executor of ext.c, set up in a kernel that cannot create the device.
use kernel_wasm.Base.{ℕ, ◌≡◌, refl, ◌≢◌, ◌⊎◌, true, false, [], arith, ◌==◌, neg}
use kernel_wasm.Kapi.Registry.{init_global_registry}
use kernel_wasm.Tests.Machine.{booted}
use kernel_wasm.Uapi.Device.{
  Device, Devices, uapi_init, create_class, create_device, uapi_cleanup, Executor, init_executor,
  cleanup_executor,
}
use kernel_wasm.Uapi.Device.Undo.{
  IsMade, IsUndone, IsTornDown, uapi_init-uapi_cleanup, cleanup_executor-init_executor,
}
use kernel_wasm.Vm.Kallsyms.{Statics, IsFound}

-- The only error pointer is 1, and `device_create` returns it.
abbrev kernel : Devices
kernel = record {
  register_chrdev = λ d. 240;
  class_create = λ d. 8192;
  device_create = λ d. 1;
  is_err = λ p. p == 1;
  ptr_err = λ p. neg p;
}

abbrev unset : Device
unset = record {
  major_number = 0;
  dev_class = 0;
  dev_handle = 0;
  uapi_initialized = false;
  log = [];
}

-- Every kernel symbol has an address.
abbrev symbols : Statics
symbols = record {
  set_memory_ro = 1;
  set_memory_rw = 2;
  map_kernel_range_noflush = 3;
  put_files_struct = 4;
  unshare_files = 5;
}

abbrev nothing_found : Statics
nothing_found = record {
  set_memory_ro = 0;
  set_memory_rw = 0;
  map_kernel_range_noflush = 0;
  put_files_struct = 0;
  unshare_files = 0;
}

abbrev unloaded : Executor
unloaded = record {
  device = unset;
  registry = init_global_registry;
  world = booted;
  statics = nothing_found;
}

errors : (p : ℕ) → kernel.is_err p ≡ true → kernel.ptr_err p ≢ 0
errors p e = ground arith

fails : (uapi_init kernel unset).0 ≡ neg 1
unfolding uapi_init create_class create_device
fails = refl

uapi_init-uapi_cleanup_example :
    (((uapi_init kernel unset).0 ≡ 0)
      × ((uapi_init kernel unset).1.uapi_initialized ≡ true)
      × IsMade unset (uapi_init kernel unset).1
      × IsTornDown unset (uapi_cleanup (uapi_init kernel unset).1))
    ⊎ (((uapi_init kernel unset).1.uapi_initialized ≡ false)
        × IsUndone unset (uapi_init kernel unset).1)
uapi_init-uapi_cleanup_example = uapi_init-uapi_cleanup kernel unset refl

cleanup_executor-init_executor_example :
    (((init_executor kernel symbols unloaded).0 ≢ 0)
      × (((uapi_init kernel unset).0 ≢ 0)
            × IsUndone unset (init_executor kernel symbols unloaded).1.device
          ⊎ ((uapi_init kernel unset).0 ≡ 0)
            × IsTornDown unset (init_executor kernel symbols unloaded).1.device))
    ⊎ (((init_executor kernel symbols unloaded).0 ≡ 0)
        × IsFound (init_executor kernel symbols unloaded).1.statics
        × IsMade unset (init_executor kernel symbols unloaded).1.device
        × IsTornDown unset (cleanup_executor (init_executor kernel symbols unloaded).1).device)
cleanup_executor-init_executor_example =
    cleanup_executor-init_executor kernel symbols unloaded refl errors
