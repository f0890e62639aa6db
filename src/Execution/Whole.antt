-- ===== src/Execution/Whole.antt =====
-- A session from the load on: the commands of its device file and the runs of its code, in any order.
use kernel_wasm.Base.{ℕ, ◌≡◌, ◌≢◌, true, none, Option, Option, Option, Option}
use kernel_wasm.Execution.{Environment, Running, Comes}
use kernel_wasm.Execution.Keeps.{Continues}
use kernel_wasm.Kapi.Info.{ImportInfo}
use kernel_wasm.Kapi.Registry.{Registry}
use kernel_wasm.Kernel.{Kernel, World}
use kernel_wasm.Net.Host as NetHost
use kernel_wasm.Uapi.Ioctl.{Run, wd_ioctl, wasm_run_code}
use kernel_wasm.Uapi.Session.{Session, Requests}
use kernel_wasm.Vm.Engine.{Engine, LoadCodeRequest}
use kernel_wasm.Vm.Written.Arrays.{ArraysFit}
use kernel_wasm.Wasi.Host as WasiHost

module _ (env : Environment) (users : Requests) (runs : World → (arg : ℕ) → Option Run)
    (g : Registry) (info : ImportInfo ℕ) where
  -- A command other than a run, or a run, which leaves the engine and the memory that its code came to.
  pub data Use (s : Session) (w : World) : Session → World → Type 0 where
    command :
        (cmd arg : ℕ)
        → cmd ≢ wasm_run_code
        → Use s w
            (wd_ioctl env.os users runs g info cmd arg s w).session
            (wd_ioctl env.os users runs g info cmd arg s w).world
    run :
        (r : Running) (w' : World)
        → s.ready ≡ true
        → Comes env (record { ee = s.ee; ram = w.ram; exit_code = none }) r
        → w'.ram ≡ r.ram
        → Use s w (record s { ee = r.ee }) w'

  pub data Uses (s₀ : Session) (w₀ : World) : Session → World → Type 0 where
    opened : Uses s₀ w₀ s₀ w₀
    then :
        {s : Session} {w : World} {s' : Session} {w' : World}
        → Uses s₀ w₀ s w
        → Use s w s' w'
        → Uses s₀ w₀ s' w'

  -- What is left of the session, of the byte at `a` and of the arrays at `j`.
  record Kept (request : LoadCodeRequest) (a j : ℕ) (s₀ : Session) (w₀ : World) (s : Session)
      (w : World) : Type 0 where
    ready : s.ready ≡ true
    continues : Continues s₀.ee s.ee
    ram : w.ram a ≡ w₀.ram a
    fits : ArraysFit env.os request j s.ee
