-- ===== src/Uapi/Run/Threads/Holdings.antt =====
-- What `handle_wasm_run_code` takes and gives back, by where its threads stand.
use kernel_wasm.Base.{ℕ, ◌+◌, ◌≡◌, Bool, true, false, not, arith}
use kernel_wasm.Uapi.Run.State.{Main, Runner, System, prepared}
use kernel_wasm.Uapi.Run.Threads.{MainStep, Interrupt, FinalizerStep, RunnerStep}
use kernel_wasm.Uapi.Run.Threads.Guards.{main_guard, finalizer_guard, runner_guard}
use kernel_wasm.Uapi.Run.Threads.Semaphores.{Tokens}

-- The handler has made the code unexecutable.
abbrev pub blocked : Main → Bool
blocked Main.killing = true
blocked (Main.waiting_end made_nx) = made_nx
blocked (Main.reporting made_nx _) = made_nx
blocked _ = false

-- 1 while the handler has a reference to the runner, and while it counts in the preemption notifiers.
abbrev pub holding : Main → ℕ
holding Main.waking = 1
holding Main.waiting_start = 1
holding Main.releasing = 1
holding (Main.waiting_end _) = 1
holding Main.killing = 1
holding (Main.reporting _ _) = 1
holding _ = 0

abbrev pub notifying : Main → ℕ
notifying Main.waking = 0
notifying m = holding m

-- 1 once the handler has given the files away itself.
abbrev pub closed : Main → ℕ
closed Main.failed = 1
closed Main.refused = 1
closed _ = 0

-- 1 once the runner has given the file away.
abbrev pub gave_stderr : Runner → ℕ
gave_stderr Runner.preparing = 1
gave_stderr Runner.entering = 1
gave_stderr Runner.calling = 1
gave_stderr Runner.leaving = 1
gave_stderr (Runner.exited _) = 1
gave_stderr _ = 0

abbrev pub gave_stdout : Runner → ℕ
gave_stdout Runner.opening_stderr = 1
gave_stdout r = gave_stderr r

abbrev pub gave_stdin : Runner → ℕ
gave_stdin Runner.opening_stdout = 1
gave_stdin r = gave_stdout r

-- What is taken and given back, by where the threads stand.
pub record Resources (n : ℕ) (s : System) : Type 0 where
  pub code : s.code_x ≡ not (blocked s.main)
  pub notifiers : s.notifiers ≡ n + notifying s.main
  pub ts_refs : s.ts_refs ≡ holding s.main
  pub stdin : s.given.stdin ≡ closed s.main + gave_stdin s.runner
  pub stdout : s.given.stdout ≡ closed s.main + gave_stdout s.runner
  pub stderr : s.given.stderr ≡ closed s.main + gave_stderr s.runner

pub prepared-Resources : (n : ℕ) → Resources n (prepared n)
prepared-Resources n = ground arith

module _ {n : ℕ} {s : System} (inv : Tokens s) (res : Resources n s) where
  pub MainStep-Resources : {t : System} → MainStep s t → Resources n t
  MainStep-Resources (MainStep.start e h) = ground arith
  MainStep-Resources st = ground (arith, main_guard st)

  pub FinalizerStep-Resources : {t : System} → FinalizerStep s t → Resources n t
  FinalizerStep-Resources (FinalizerStep.begin e h) = ground arith
  FinalizerStep-Resources st = ground (arith, finalizer_guard st)

  pub RunnerStep-Resources : {k : ℕ} {t : System} → RunnerStep k s t → Resources n t
  RunnerStep-Resources (RunnerStep.begin e) = ground arith
  RunnerStep-Resources st = ground (arith, runner_guard st)

  pub Interrupt-Resources : {t : System} → Interrupt s t → Resources n t
  Interrupt-Resources (Interrupt.interrupted m e) = ground arith
