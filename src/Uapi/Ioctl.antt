-- ===== src/Uapi/Ioctl.antt =====
-- uapi.c: `wd_ioctl`, the dispatch on the command number. What a run does to the session is what its
-- compiled code asks of the memory; Uapi/Run has its threads.
pub mod Growth
pub mod Lifetime
use kernel_wasm.Base.{ℕ, Option, none, some, List, [], ◌∷◌, ◌==◌, if◌then◌else◌, not, neg}
use kernel_wasm.Kapi.Info.{ImportInfo}
use kernel_wasm.Kapi.Registry.{Registry}
use kernel_wasm.Kernel.{Kernel, World, efault, einval}
use kernel_wasm.Uapi.Session.{
  Session, Requests, Handled, wd_release, handle_wasm_load_code, handle_wasm_read_memory,
  handle_wasm_write_memory,
}
use kernel_wasm.Vm.Grow.{Grown, wasm_memory_grow}

-- `WASM_LOAD_CODE` … `WASM_WRITE_MEMORY`.
abbrev pub wasm_load_code : ℕ
wasm_load_code = 0x1001

abbrev pub wasm_run_code : ℕ
wasm_run_code = 0x1002

abbrev pub wasm_read_memory : ℕ
wasm_read_memory = 0x1003

abbrev pub wasm_write_memory : ℕ
wasm_write_memory = 0x1004

-- A run of compiled code: what the handler returns, and the calls of `memory.grow`, the pages of each.
pub record Run : Type 0 where
  pub ret : ℕ
  pub grows : List ℕ

-- The calls of `memory.grow` of a run, one after the other.
unfoldable pub grow_all : Kernel → List ℕ → Session → World → Session × World
grow_all os [] s w = (s, w)
grow_all os (pages ∷ rest) s w =
    let g = wasm_memory_grow os pages s.ee w in grow_all os rest (record s { ee = g.ee }) g.world

-- `handle_wasm_run_code`, as the session sees it; the run is `none` if `copy_from_user` faults.
unfoldable pub run_code : Kernel → Option Run → Session → World → Handled
run_code os none s w = record { ret = neg efault; session = s; world = w }
run_code os (some r) s w =
    if not s.ready
    then record { ret = neg einval; session = s; world = w }
    else let (s', w') = grow_all os r.grows s w in record { ret = r.ret; session = s'; world = w' }

module _ (os : Kernel) (users : Requests) (runs : World → (arg : ℕ) → Option Run) where
  module _ (g : Registry) (info : ImportInfo ℕ) where
    -- `wd_ioctl`.
    unfoldable pub wd_ioctl : (cmd arg : ℕ) → Session → World → Handled
    wd_ioctl cmd arg s w =
        if cmd == wasm_load_code
        then handle_wasm_load_code os users g info arg s w
        else if cmd == wasm_run_code
        then run_code os (runs w arg) s w
        else if cmd == wasm_read_memory
        then handle_wasm_read_memory os users arg s w
        else if cmd == wasm_write_memory
        then handle_wasm_write_memory os users arg s w
        else record { ret = neg einval; session = s; world = w }

    -- One `ioctl` after the other, then `wd_release`.
    unfoldable pub ioctls : List (ℕ × ℕ) → Session → World → World
    ioctls [] s w = wd_release os s w
    ioctls ((cmd, arg) ∷ commands) s w =
        let h = wd_ioctl cmd arg s w in ioctls commands h.session h.world
