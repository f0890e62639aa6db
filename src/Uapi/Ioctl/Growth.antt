-- ===== src/Uapi/Ioctl/Growth.antt =====
-- What a growth of the memory keeps of an engine whose pages back it, and what the growths of a session
-- lose.
use kernel_wasm.Base.{
  ℕ, ◌+◌, ◌≡◌, inl, inr, arith, ◌==◌, Bool-cases, List, [], ◌∷◌, Option, none, some, if◌then◌else◌,
}
use kernel_wasm.Kapi.Info.{ImportInfo}
use kernel_wasm.Kapi.Registry.{Registry}
use kernel_wasm.Kernel.{Kernel, Kind, World}
use kernel_wasm.Uapi.Ioctl.{Run, wd_ioctl, wasm_run_code}
use kernel_wasm.Uapi.Session.{Session, Requests}
use kernel_wasm.Vm.Engine.{Engine}
use kernel_wasm.Vm.Grow.{wasm_memory_grow}
use kernel_wasm.Vm.Grow.Frame.{wasm_memory_grow-same}
use kernel_wasm.Vm.Grow.Lost.{unmapped}
use kernel_wasm.Vm.Grow.Size.{wasm_memory_grow_lem}
use kernel_wasm.Vm.Sized.{IsBacked}

-- Without a memory, nothing grows.
pub wasm_memory_grow-absent :
    (os : Kernel) (pages : ℕ) (ee : Engine) (w : World)
    → ee.ctx.memory_base ≡ 0
    → ((wasm_memory_grow os pages ee w).ee ≡ ee) × ((wasm_memory_grow os pages ee w).world ≡ w)
unfolding wasm_memory_grow
wasm_memory_grow-absent os pages ee w e = ground arith

pub wasm_memory_grow-IsBacked :
    (os : Kernel) (pages : ℕ) (ee : Engine) (w : World)
    → IsBacked ee
    → IsBacked (wasm_memory_grow os pages ee w).ee
wasm_memory_grow-IsBacked os pages ee w b = elim (Bool-cases (ee.ctx.memory_base == 0)) [
  | inl absent ↦ rw (wasm_memory_grow-absent os pages ee w (ground arith)).0 b
  | inr present ↦
      let same = (wasm_memory_grow-same os pages ee w).0 in
      record {
        sized = (wasm_memory_grow_lem os pages ee w b.sized (ground arith)).1;
        paged = let paged = b.paged in ground arith;
      }
]

-- What the growths of a run lose: the pages of those whose mapping fails.
unfoldable pub grow_all_lost : Kernel → Kind → ℕ → List ℕ → Session → World → ℕ
grow_all_lost os kind p [] s w = 0
grow_all_lost os kind p (pages ∷ rest) s w =
    let g = wasm_memory_grow os pages s.ee w in
    unmapped kind p w g.world + grow_all_lost os kind p rest (record s { ee = g.ee }) g.world

-- What a run loses, if it takes place.
unfoldable pub run_lost : Kernel → Kind → ℕ → Option Run → Session → World → ℕ
run_lost os kind p none s w = 0
run_lost os kind p (some r) s w = if s.ready then grow_all_lost os kind p r.grows s w else 0

-- What the runs among the commands lose.
module _ (os : Kernel) (users : Requests) (runs : World → (arg : ℕ) → Option Run) where
  unfoldable pub ioctls_lost :
      Registry → ImportInfo ℕ → Kind → ℕ → List (ℕ × ℕ) → Session → World → ℕ
  ioctls_lost g info kind p [] s w = 0
  ioctls_lost g info kind p ((cmd, arg) ∷ commands) s w =
      let h = wd_ioctl os users runs g info cmd arg s w in
      (if cmd == wasm_run_code then run_lost os kind p (runs w arg) s w else 0)
      + ioctls_lost g info kind p commands h.session h.world
