-- ===== src/Tests/Uapi.antt =====
-- A session of uapi.c, run: open, load, write, release.
use kernel_wasm.Base.{◌≡◌, refl, inr, true, false, some}
use kernel_wasm.Uapi.Session.{Session, Requests, MemoryRequest, wd_open, handle_wasm_write_memory}
use kernel_wasm.Uapi.Transfer.{IsGranted, handle_wasm_memory_checked}
use kernel_wasm.Vm.Context.{vmctx_get_memory_slice}
use kernel_wasm.Tests.Machine.{machine, booted, one_page, one_page-IsPlaced}
use kernel_wasm.Tests.Vm.{request, uninit}

-- The user asks for the request of the loading test, and to write 16 bytes at 100.
abbrev pub users : Requests
users = record {
  load_code = λ w arg. some request;
  memory = λ w arg. some (record { buffer = 4096; offset = 100; len = 16 });
}

abbrev pub opened : Session
opened = record { address = 1048576; ready = false; ee = uninit }

pub opens : (wd_open machine 4096 uninit booted).0 ≡ some opened
unfolding wd_open
opens = refl

-- A session whose memory is one WebAssembly page.
abbrev running : Session
running = record { address = 4096; ready = true; ee = record uninit { ctx = one_page } }

writes_ok : (handle_wasm_write_memory machine users 0 running booted).ret ≡ 0
unfolding handle_wasm_write_memory vmctx_get_memory_slice
writes_ok = refl

wrote : (handle_wasm_write_memory machine users 0 running booted).world.ram 1048676 ≡ 7
unfolding handle_wasm_write_memory vmctx_get_memory_slice
wrote = refl

handle_wasm_memory_checked_example :
    (req : MemoryRequest) × (users.memory booted 0 ≡ some req) × IsGranted running req
handle_wasm_memory_checked_example =
    handle_wasm_memory_checked machine users 0 running booted one_page-IsPlaced (inr writes_ok)
