-- ===== src/Uapi/Run/Threads/Outcomes.antt =====
-- What the results of `handle_wasm_run_code` say of the run.
use kernel_wasm.Base.{ℕ, ◌≡◌, refl, ◌⊎◌, inr, true, false, Option, none, some, neg, arith}
use kernel_wasm.Kernel.{efault}
use kernel_wasm.Uapi.Run.State.{
  Task, RunCodeResult, Main, Finalizer, Runner, System, prepared, result_of,
}
use kernel_wasm.Uapi.Run.Threads.{MainStep, Interrupt, FinalizerStep, RunnerStep}
use kernel_wasm.Uapi.Run.Threads.Guards.{main_guard, finalizer_guard, runner_guard}
use kernel_wasm.Uapi.Run.Threads.Semaphores.{Tokens}

-- What the finalizer knows of the runner's end.
abbrev pub Ended : Finalizer → Task → Runner → Type 0
Ended Finalizer.signalling task runner = runner ≡ Runner.exited task.finalize_ret
Ended Finalizer.done task runner =
    (task.finalizer_should_not_run ≡ true) ⊎ (runner ≡ Runner.exited task.finalize_ret)
Ended _ task runner = Unit {0}

-- The runner is not in compiled code and has not been, and its result is 0 if it has ended.
abbrev pub Idle : Runner → Type 0
Idle Runner.calling = ⊥
Idle (Runner.exited code) = code ≡ 0
Idle _ = Unit {0}

-- What the handler is about to tell, or has told.
abbrev pub Told : Main → Task → Option RunCodeResult → Type 0
Told (Main.reporting _ r) task told = (told ≡ none) × (r ≡ result_of task)
Told (Main.returned ret) task told =
    ((ret ≡ 0) × (told ≡ some (result_of task))) ⊎ ((ret ≡ neg efault) × (told ≡ none))
Told _ task told = told ≡ none

-- What the results say of the run.
pub record Results (s : System) : Type 0 where
  pub ended : Ended s.finalizer s.task s.runner
  pub idle : (s.called ≡ true) ⊎ ((s.called ≡ false) × (s.task.ret ≡ 0) × Idle s.runner)
  pub told : Told s.main s.task s.told

pub prepared-Results : (n : ℕ) → Results (prepared n)
prepared-Results n = record { ended = tt; idle = inr (refl, refl, tt); told = refl }

module _ {s : System} (inv : Tokens s) (res : Results s) where
  pub MainStep-Results : {t : System} → MainStep s t → Results t
  MainStep-Results (MainStep.start e h) = ground arith
  MainStep-Results st = ground (arith, main_guard st)

  pub FinalizerStep-Results : {t : System} → FinalizerStep s t → Results t
  FinalizerStep-Results (FinalizerStep.begin e h) = ground arith
  FinalizerStep-Results st = ground (arith, finalizer_guard st)

  pub RunnerStep-Results : {k : ℕ} {t : System} → RunnerStep k s t → Results t
  RunnerStep-Results (RunnerStep.begin e) = ground arith
  RunnerStep-Results st = ground (arith, runner_guard st)

  pub Interrupt-Results : {t : System} → Interrupt s t → Results t
  Interrupt-Results (Interrupt.interrupted m e) = ground arith
