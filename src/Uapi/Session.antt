-- ===== src/Uapi/Session.antt =====
-- uapi.c: the session of an open device file, and its file operations but for running code.
use kernel_wasm.Base.{
  ℕ, Bool, true, false, not, Option, none, some, ◌==◌, if◌then◌else◌, neg, u32, is_neg,
}
use kernel_wasm.Kapi.Info.{ImportInfo}
use kernel_wasm.Kapi.Registry.{Registry}
use kernel_wasm.Kernel.{
  Kernel, World, Event, emit, heap, call_alloc, call_from_user, efault, einval,
}
use kernel_wasm.Vm.Context.{vmctx_get_memory_slice}
use kernel_wasm.Vm.Engine.{Engine, LoadCodeRequest}
use kernel_wasm.Vm.Load.{init_execution_engine, destroy_execution_engine}

-- `struct privileged_session`, with the address that `kmalloc` gave it.
pub record Session : Type 0 where
  pub address : ℕ
  pub ready : Bool
  pub ee : Engine

-- `struct read_memory_request` and `struct write_memory_request`: the user's buffer, `out` or `in`.
pub record MemoryRequest : Type 0 where
  pub buffer : ℕ
  pub offset : ℕ
  pub len : ℕ

-- The request at a user address, `none` if `copy_from_user` faults.
pub record Requests : Type 0 where
  pub load_code : World → (arg : ℕ) → Option LoadCodeRequest
  pub memory : World → (arg : ℕ) → Option MemoryRequest

-- What a handler returns, and leaves.
pub record Handled : Type 0 where
  pub ret : ℕ
  pub session : Session
  pub world : World

-- `wd_open`: `none` for -ENOMEM. `size` is `sizeof(struct privileged_session)`, and
-- `uninit` what the memory holds behind `ready`.
unfoldable pub wd_open : Kernel → (size : ℕ) → (uninit : Engine) → World → Option Session × World
wd_open os size uninit w =
    let (p, w₁) = call_alloc os heap size w in
    if p == 0 then (none, w₁) else (some (record { address = p; ready = false; ee = uninit }), w₁)

-- `wd_release`.
unfoldable pub wd_release : Kernel → Session → World → World
wd_release os s w =
    emit (Event.free heap s.address) (if s.ready then destroy_execution_engine os s.ee w else w)

-- `wd_read` and `wd_write`.
abbrev pub wd_read : ℕ
wd_read = 0

abbrev pub wd_write : ℕ
wd_write = neg einval

-- `handle_wasm_load_code` from `init_execution_engine` on.
unfoldable pub attempt :
    Kernel → Registry → ImportInfo ℕ → LoadCodeRequest → Session → World → Handled
attempt os g info req s w =
    let l = init_execution_engine os g info req s.ee w in
    if is_neg l.err
    then record { ret = l.err; session = record s { ee = l.ee }; world = l.world }
    else record { ret = 0; session = record s { ready = true; ee = l.ee }; world = l.world }

module _ (os : Kernel) (users : Requests) where
  -- `handle_wasm_load_code`.
  unfoldable pub handle_wasm_load_code :
      Registry → ImportInfo ℕ → (arg : ℕ) → Session → World → Handled
  handle_wasm_load_code g info arg s w =
      if s.ready
      then record { ret = neg einval; session = s; world = w }
      else elim (users.load_code w arg) [
        | none ↦ record { ret = neg efault; session = s; world = w }
        | some req ↦ attempt os g info req s w
      ]

  -- `handle_wasm_read_memory`.
  unfoldable pub handle_wasm_read_memory : (arg : ℕ) → Session → World → Handled
  handle_wasm_read_memory arg s w = elim (users.memory w arg) [
    | none ↦ record { ret = neg efault; session = s; world = w }
    | some req ↦
        let slice = vmctx_get_memory_slice s.ee.ctx req.offset req.len in
        let ret : ℕ =
          if not s.ready
          then neg einval
          else if slice == 0
          then neg einval
          else if not (os.to_user w req.buffer slice (u32 req.len) == 0)
          then neg efault
          else 0 in
        record { ret = ret; session = s; world = w }
  ]

  -- `handle_wasm_write_memory`.
  unfoldable pub handle_wasm_write_memory : (arg : ℕ) → Session → World → Handled
  handle_wasm_write_memory arg s w = elim (users.memory w arg) [
    | none ↦ record { ret = neg efault; session = s; world = w }
    | some req ↦
        if not s.ready
        then record { ret = neg einval; session = s; world = w }
        else let slice = vmctx_get_memory_slice s.ee.ctx req.offset req.len in
          if slice == 0
          then record { ret = neg einval; session = s; world = w }
          else let (left, w₁) = call_from_user os slice req.buffer (u32 req.len) w in
            record { ret = if not (left == 0) then neg efault else 0; session = s; world = w₁ }
  ]
