-- ===== src/Uapi/Run/Threads/Semaphores.antt =====
-- The semaphores of `handle_wasm_run_code`, and who is there.
use kernel_wasm.Base.{ℕ, ◌+◌, ◌≡◌, refl, Bool, true, false, arith}
use kernel_wasm.Uapi.Run.State.{Main, Finalizer, Runner, System, prepared}
use kernel_wasm.Uapi.Run.Threads.{MainStep, Interrupt, FinalizerStep, RunnerStep}
use kernel_wasm.Uapi.Run.Threads.Guards.{main_guard, finalizer_guard, runner_guard}

-- 0 before the handler has made the runner, 1 until it has woken it, 2 from then on.
abbrev pub main_phase : Main → ℕ
main_phase Main.spawning_finalizer = 0
main_phase Main.failed = 0
main_phase Main.spawning_runner = 0
main_phase Main.cancelling = 0
main_phase Main.closing = 0
main_phase Main.refused = 0
main_phase Main.waking = 1
main_phase _ = 2

abbrev pub runner_phase : Runner → ℕ
runner_phase Runner.unmade = 0
runner_phase Runner.created = 1
runner_phase _ = 2

-- 1 once the finalizer is there.
abbrev pub spawned : Main → ℕ
spawned Main.spawning_finalizer = 0
spawned Main.failed = 0
spawned _ = 1

abbrev pub present : Finalizer → ℕ
present Finalizer.absent = 0
present _ = 1

-- The runner could not be made.
abbrev pub cancelled : Main → Bool
cancelled Main.cancelling = true
cancelled Main.closing = true
cancelled Main.refused = true
cancelled _ = false

-- What was added to and taken from the semaphores: 1 from then on.
abbrev pub gave_start : Runner → ℕ
gave_start Runner.unmade = 0
gave_start Runner.created = 0
gave_start Runner.started = 0
gave_start _ = 1

abbrev pub took_start : Main → ℕ
took_start Main.releasing = 1
took_start (Main.waiting_end _) = 1
took_start Main.killing = 1
took_start (Main.reporting _ _) = 1
took_start (Main.returned _) = 1
took_start _ = 0

abbrev pub gave_release : Main → ℕ
gave_release Main.closing = 1
gave_release Main.refused = 1
gave_release (Main.waiting_end _) = 1
gave_release Main.killing = 1
gave_release (Main.reporting _ _) = 1
gave_release (Main.returned _) = 1
gave_release _ = 0

abbrev pub took_release : Finalizer → ℕ
took_release Finalizer.absent = 0
took_release Finalizer.waiting = 0
took_release _ = 1

abbrev pub gave_end : Finalizer → (should_not_run : Bool) → ℕ
gave_end Finalizer.done false = 1
gave_end _ _ = 0

abbrev pub took_end : Main → ℕ
took_end (Main.reporting _ _) = 1
took_end (Main.returned _) = 1
took_end _ = 0

-- The finalizer stops the runner only if it may.
abbrev pub May : Finalizer → (should_not_run : Bool) → Type 0
May Finalizer.stopping flag = flag ≡ false
May Finalizer.signalling flag = flag ≡ false
May _ flag = Unit {0}

-- The semaphores count what was added and not yet taken, and the threads are there when they are
-- spoken of.
pub record Tokens (s : System) : Type 0 where
  pub start : s.task.exec_start + took_start s.main ≡ gave_start s.runner
  pub release : s.task.finalizer_start + took_release s.finalizer ≡ gave_release s.main
  pub end :
      s.task.finalizer_end + took_end s.main ≡ gave_end s.finalizer s.task.finalizer_should_not_run
  pub runner : runner_phase s.runner ≡ main_phase s.main
  pub finalizer : present s.finalizer ≡ spawned s.main
  pub may : May s.finalizer s.task.finalizer_should_not_run
  pub flag : s.task.finalizer_should_not_run ≡ cancelled s.main

pub prepared-Tokens : (n : ℕ) → Tokens (prepared n)
prepared-Tokens n = record {
  start = omega arith;
  release = omega arith;
  end = omega arith;
  runner = refl;
  finalizer = refl;
  may = tt;
  flag = refl;
}

module _ {s : System} (inv : Tokens s) where
  pub MainStep-Tokens : {t : System} → MainStep s t → Tokens t
  MainStep-Tokens (MainStep.start e h) = ground arith
  MainStep-Tokens st = ground (arith, main_guard st)

  pub FinalizerStep-Tokens : {t : System} → FinalizerStep s t → Tokens t
  FinalizerStep-Tokens (FinalizerStep.begin e h) = ground arith
  FinalizerStep-Tokens st = ground (arith, finalizer_guard st)

  pub RunnerStep-Tokens : {n : ℕ} {t : System} → RunnerStep n s t → Tokens t
  RunnerStep-Tokens (RunnerStep.begin e) = ground arith
  RunnerStep-Tokens st = ground (arith, runner_guard st)

  pub Interrupt-Tokens : {t : System} → Interrupt s t → Tokens t
  Interrupt-Tokens (Interrupt.interrupted m e) = ground arith
