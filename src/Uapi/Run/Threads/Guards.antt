-- ===== src/Uapi/Run/Threads/Guards.antt =====
-- The premise of a step, for the proofs that treat the steps of a thread alike.
use kernel_wasm.Base.{ℕ, ◌<◌, ◌≡◌, true, false}
use kernel_wasm.Uapi.Run.State.{Main, Finalizer, Runner, System}
use kernel_wasm.Uapi.Run.Threads.{MainStep, FinalizerStep, RunnerStep}

abbrev pub MainGuard : {s t : System} → MainStep s t → Type 0
MainGuard {s = s} (MainStep.finalizer_fails _) = s.main ≡ Main.spawning_finalizer
MainGuard {s = s} (MainStep.finalizer_runs _) = s.main ≡ Main.spawning_finalizer
MainGuard {s = s} (MainStep.runner_fails _) = s.main ≡ Main.spawning_runner
MainGuard {s = s} (MainStep.cancel _) = s.main ≡ Main.cancelling
MainGuard {s = s} (MainStep.close _) = s.main ≡ Main.closing
MainGuard {s = s} (MainStep.runner_made _ _ _) = s.main ≡ Main.spawning_runner
MainGuard {s = s} (MainStep.wake _) = s.main ≡ Main.waking
MainGuard {s = s} (MainStep.start _ _) = (s.main ≡ Main.waiting_start) × (0 < s.task.exec_start)
MainGuard {s = s} (MainStep.release _) = s.main ≡ Main.releasing
MainGuard {s = s} (MainStep.kill _) = s.main ≡ Main.killing
MainGuard {s = s} (MainStep.end m _ _) = (s.main ≡ Main.waiting_end m) × (0 < s.task.finalizer_end)
MainGuard {s = s} (MainStep.report m r _) = s.main ≡ Main.reporting m r
MainGuard {s = s} (MainStep.report_faults m r _) = s.main ≡ Main.reporting m r

pub main_guard : {s t : System} (st : MainStep s t) → MainGuard st
main_guard (MainStep.finalizer_fails e) = e
main_guard (MainStep.finalizer_runs e) = e
main_guard (MainStep.runner_fails e) = e
main_guard (MainStep.cancel e) = e
main_guard (MainStep.close e) = e
main_guard (MainStep.runner_made _ e _) = e
main_guard (MainStep.wake e) = e
main_guard (MainStep.start e h) = (e, h)
main_guard (MainStep.release e) = e
main_guard (MainStep.kill e) = e
main_guard (MainStep.end _ e h) = (e, h)
main_guard (MainStep.report _ _ e) = e
main_guard (MainStep.report_faults _ _ e) = e

abbrev pub FinalizerGuard : {s t : System} → FinalizerStep s t → Type 0
FinalizerGuard {s = s} (FinalizerStep.begin _ _) =
    (s.finalizer ≡ Finalizer.waiting) × (0 < s.task.finalizer_start)
FinalizerGuard {s = s} (FinalizerStep.skip _ _) =
    (s.finalizer ≡ Finalizer.checking) × (s.task.finalizer_should_not_run ≡ true)
FinalizerGuard {s = s} (FinalizerStep.stop _ _) =
    (s.finalizer ≡ Finalizer.checking) × (s.task.finalizer_should_not_run ≡ false)
FinalizerGuard {s = s} (FinalizerStep.stopped code _ _) =
    (s.finalizer ≡ Finalizer.stopping) × (s.runner ≡ Runner.exited code)
FinalizerGuard {s = s} (FinalizerStep.finish _) = s.finalizer ≡ Finalizer.signalling

pub finalizer_guard : {s t : System} (st : FinalizerStep s t) → FinalizerGuard st
finalizer_guard (FinalizerStep.begin e h) = (e, h)
finalizer_guard (FinalizerStep.skip e h) = (e, h)
finalizer_guard (FinalizerStep.stop e h) = (e, h)
finalizer_guard (FinalizerStep.stopped _ e h) = (e, h)
finalizer_guard (FinalizerStep.finish e) = e

abbrev pub RunnerGuard : {n : ℕ} {s t : System} → RunnerStep n s t → Type 0
RunnerGuard {s = s} (RunnerStep.begin _) = s.runner ≡ Runner.started
RunnerGuard {s = s} (RunnerStep.unshare_fails _) = s.runner ≡ Runner.unsharing
RunnerGuard {s = s} (RunnerStep.unshared _) = s.runner ≡ Runner.unsharing
RunnerGuard {s = s} (RunnerStep.stdin_fails _) = s.runner ≡ Runner.opening_stdin
RunnerGuard {s = s} (RunnerStep.stdin_opened _) = s.runner ≡ Runner.opening_stdin
RunnerGuard {s = s} (RunnerStep.stdout_fails _) = s.runner ≡ Runner.opening_stdout
RunnerGuard {s = s} (RunnerStep.stdout_opened _) = s.runner ≡ Runner.opening_stdout
RunnerGuard {s = s} (RunnerStep.stderr_fails _) = s.runner ≡ Runner.opening_stderr
RunnerGuard {s = s} (RunnerStep.stderr_opened _) = s.runner ≡ Runner.opening_stderr
RunnerGuard {s = s} (RunnerStep.prepare _) = s.runner ≡ Runner.preparing
RunnerGuard {s = s} (RunnerStep.bad_params _ _) = s.runner ≡ Runner.entering
RunnerGuard {s = s} (RunnerStep.call _ _) = s.runner ≡ Runner.entering
RunnerGuard {s = s} (RunnerStep.return _ _) = s.runner ≡ Runner.calling
RunnerGuard {s = s} (RunnerStep.die _ _) = s.runner ≡ Runner.calling
RunnerGuard {s = s} (RunnerStep.leave _) = s.runner ≡ Runner.leaving

pub runner_guard : {n : ℕ} {s t : System} (st : RunnerStep n s t) → RunnerGuard st
runner_guard (RunnerStep.begin e) = e
runner_guard (RunnerStep.unshare_fails e) = e
runner_guard (RunnerStep.unshared e) = e
runner_guard (RunnerStep.stdin_fails e) = e
runner_guard (RunnerStep.stdin_opened e) = e
runner_guard (RunnerStep.stdout_fails e) = e
runner_guard (RunnerStep.stdout_opened e) = e
runner_guard (RunnerStep.stderr_fails e) = e
runner_guard (RunnerStep.stderr_opened e) = e
runner_guard (RunnerStep.prepare e) = e
runner_guard (RunnerStep.bad_params e _) = e
runner_guard (RunnerStep.call e _) = e
runner_guard (RunnerStep.return _ e) = e
runner_guard (RunnerStep.die _ e) = e
runner_guard (RunnerStep.leave e) = e
