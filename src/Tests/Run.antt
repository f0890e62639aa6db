-- ===== src/Tests/Run.antt =====
-- Runs of the threads of `handle_wasm_run_code`, one for each way that it can end.
use kernel_wasm.Base.{
  ℕ, ◌+◌, ◌-◌, ◌^◌, ◌≤◌, ◌≡◌, ◌≢◌, refl, ◌⊎◌, true, false, none, some, [], ◌∷◌, neg, ◌==◌,
  if◌then◌else◌, arith,
}
use kernel_wasm.Kernel.{efault, einval}
use kernel_wasm.Uapi.Run.Stdio.{
  RunCodeRequest, Event, Descriptors, Begun, take_stdio, begin_run, gets, puts, keeps,
  begin_run_holds,
}
use kernel_wasm.Uapi.Run.Runner.{Outcome, Surroundings, Stage, Coroutine, code_runner}
use kernel_wasm.Uapi.Run.Runner.Refines.{RunnerSteps, code_runner_refines}
use kernel_wasm.Tests.Vm.{uninit}
use kernel_wasm.Uapi.Run.State.{
  Main, Finalizer, Runner, RunCodeResult, System, prepared, return_value,
}
use kernel_wasm.Uapi.Run.Threads.{
  Reach, here, next, Step, Work, MainStep, FinalizerStep, RunnerStep,
}
use kernel_wasm.Uapi.Run.Threads.Entry.{readied}
use kernel_wasm.Uapi.Run.Threads.Liveness.{Steps, nothing, work, moves_bounded, always_ends}
use kernel_wasm.Uapi.Run.Threads.Progress.{IsOver}
use kernel_wasm.Uapi.Run.Threads.Safety.{
  returned_after_run, files_given_once, restored_at_return, unrun_reports_success,
  refused_leaves_finalizer,
}

-- A step of each thread at the end of a run.
main_goes : {k n : ℕ} {s t : System} → Reach k n s → MainStep s t → Reach k n t
main_goes r st = next r (Step.work (Work.main st))

finalizer_goes : {k n : ℕ} {s t : System} → Reach k n s → FinalizerStep s t → Reach k n t
finalizer_goes r st = next r (Step.work (Work.finalizer st))

runner_goes : {k n : ℕ} {s t : System} → Reach k n s → RunnerStep k s t → Reach k n t
runner_goes r st = next r (Step.work (Work.runner st))

-- The runner fails to unshare its files and ends, with the finalizer in `kthread_stop`.
abbrev stopping : System
stopping = record (prepared 5) {
  main = Main.waiting_end false;
  finalizer = Finalizer.stopping;
  runner = Runner.unsharing;
  task = record (prepared 5).task { runner_ts = 1 };
  notifiers = 6;
  ts_refs = 1;
}

stopping_reached : Reach 0 5 stopping
stopping_reached =
    finalizer_goes
      (finalizer_goes
        (main_goes
          (main_goes
            (runner_goes
              (main_goes
                (main_goes (main_goes here (MainStep.finalizer_runs refl))
                  (MainStep.runner_made 1 refl (omega arith)))
                (MainStep.wake refl))
              (RunnerStep.begin refl))
            (MainStep.start refl (omega arith)))
          (MainStep.release refl))
        (FinalizerStep.begin refl (omega arith)))
      (FinalizerStep.stop refl refl)

-- The handler has reported, though nothing was run.
abbrev unrun : System
unrun = record stopping {
  main = Main.returned 0;
  finalizer = Finalizer.done;
  runner = Runner.exited 0;
  given = record { stdin = 1; stdout = 1; stderr = 1 };
  notifiers = 5;
  ts_refs = 0;
  told = some (record { success = 1; retval = 0 });
}

unrun_reached : Reach 0 5 unrun
unrun_reached =
    main_goes
      (main_goes
        (finalizer_goes
          (finalizer_goes
            (runner_goes (runner_goes stopping_reached (RunnerStep.unshare_fails refl))
              (RunnerStep.leave refl))
            (FinalizerStep.stopped 0 refl refl))
          (FinalizerStep.finish refl))
        (MainStep.end false refl (omega arith)))
      (MainStep.report false (record { success = 1; retval = 0 }) refl)

abbrev ok : ℕ
ok = 0

abbrev told : RunCodeResult
told = record { success = 1; retval = 0 }

returned_after_run_example :
    (unrun.finalizer ≡ Finalizer.done)
    × (code : ℕ) × (unrun.runner ≡ Runner.exited code)
    × (((ok ≡ 0)
          × (unrun.told
              ≡ some (
                  if code == 0
                  then record { success = 1; retval = unrun.task.ret }
                  else record { success = 0; retval = 0 })))
        ⊎ ((ok ≡ neg efault) × (unrun.told ≡ none)))
returned_after_run_example = returned_after_run ok unrun_reached refl

files_given_once_example :
    (unrun.given.stdin ≤ 1)
    × (unrun.given.stdout ≤ 1)
    × (unrun.given.stderr ≤ 1)
    × ((return_value unrun.main ≡ none)
        ⊎ ((unrun.given.stdin ≡ 1) × (unrun.given.stdout ≡ 1) × (unrun.given.stderr ≡ 1)))
files_given_once_example = files_given_once unrun_reached

restored_at_return_example : (unrun.code_x ≡ true) × (unrun.notifiers ≡ 5) × (unrun.ts_refs ≡ 0)
restored_at_return_example = restored_at_return 0 unrun_reached refl

-- Compiled code has been entered.
abbrev running : System
running = record stopping {
  main = Main.waiting_start;
  finalizer = Finalizer.waiting;
  runner = Runner.calling;
  task = record (prepared 5).task { runner_ts = 1; exec_start = 1 };
  given = record { stdin = 1; stdout = 1; stderr = 1 };
  called = true;
  calls = readied;
}

unrun_reports_success_example : told ≡ record { success = 1; retval = 0 }
unrun_reports_success_example = unrun_reports_success told unrun_reached refl refl

refused_leaves_finalizer_example :
    (s : System) × Reach 3 5 s
    × (return_value s.main ≡ some (neg einval))
    × (s.finalizer ≡ Finalizer.waiting)
    × (s.task.finalizer_start ≡ 1)
refused_leaves_finalizer_example = refused_leaves_finalizer 3 5

always_ends_example : (t : System) × (works : ℕ) × Steps 0 stopping works 0 t × IsOver t
always_ends_example = always_ends stopping_reached

-- Four steps: no runner can be made.
refused_at_once : (t : System) × Steps 0 (prepared 5) 4 0 t
refused_at_once = (
  _,
  work (Work.main (MainStep.finalizer_runs refl)) (
      work (Work.main (MainStep.runner_fails refl))
        (work (Work.main (MainStep.cancel refl)) (work (Work.main (MainStep.close refl)) nothing))),
)

moves_bounded_example : 4 ≤ 24 + 0
moves_bounded_example = moves_bounded refused_at_once.1

-- The second descriptor is bad: an error pointer.
abbrev bad_stdout : Descriptors
bad_stdout = record {
  fget_raw = λ log fd. if fd == 1 then 9 else 100 + fd;
  is_err = λ p. p == 9;
  ptr_err = λ p. 2 ^ 32 - p;
}

abbrev run_request : RunCodeRequest
run_request = record { entry_offset = 0; params = 0; param_count = 0; result = 4096 }

rejects :
    begin_run bad_stdout (some run_request) true []
    ≡ (Begun.rejected (2 ^ 32 - 9), Event.put 100 ∷ Event.got 100 ∷ [])
unfolding begin_run take_stdio
rejects = refl

begin_run_holds_example :
    gets 100 (begin_run bad_stdout (some run_request) true []).1 + puts 100 []
    ≡ puts 100 (begin_run bad_stdout (some run_request) true []).1
      + gets 100 []
      + keeps 100 (begin_run bad_stdout (some run_request) true []).0
begin_run_holds_example = begin_run_holds bad_stdout (some run_request) true [] 100

-- A thread that runs code which returns 42, in an engine at 0.
abbrev surroundings : Surroundings
surroundings = record {
  files = record { ret = 0; displaced = 4096 };
  stdin_fd = 0;
  stdout_fd = 1;
  stderr_fd = 2;
  code_at = λ address. Outcome.value 42;
}

abbrev woken : System
woken = record (prepared 5) { runner = Runner.started }

code_runner_refines_example :
    (co : Coroutine) × (t : System) × (code : ℕ) × (code_runner 2 surroundings uninit run_request
        woken
      ≡ some (co, t))
    × RunnerSteps 0 woken t
    × (t.runner ≡ Runner.exited code)
    × (co.stage ≢ Stage.ended)
code_runner_refines_example = code_runner_refines 0 surroundings uninit run_request woken refl
