-- ===== src/Uapi/Run/Threads.antt =====
-- uapi.c: the threads of `handle_wasm_run_code`: the handler itself, `task_finalizer` and
-- `code_runner`, which meet on the semaphores of `struct code_runner_task`. A step is one access to
-- what they share, in any order that the semaphores allow; `close`, `report` and `report_faults` each take
-- the handler's last accesses together, those after `up(&task.finalizer_start)` or after its last wait.
pub mod Guards
pub mod Semaphores
pub mod Holdings
pub mod Outcomes
pub mod Invariant
pub mod Safety
pub mod Progress
pub mod Liveness
pub mod Entry
use kernel_wasm.Base.{
  ℕ, ◌+◌, ◌-◌, ◌<◌, ◌≡◌, ◌≢◌, Bool, true, false, ◌==◌, if◌then◌else◌, Option, none, some, neg, ◌∷◌,
}
use kernel_wasm.Kernel.{efault, einval}
use kernel_wasm.Uapi.Run.State
use kernel_wasm.Uapi.Run.State.{
  RunCodeResult, Call, Main, Finalizer, Runner, System, prepared, give_stdin, give_stdout,
  give_stderr, give_all, result_of,
}

-- A step of the handler.
pub data MainStep (s : System) : System → Type 0 where
  finalizer_fails :
      s.main ≡ Main.spawning_finalizer
      → MainStep s (record s { main = Main.failed; given = give_all s.given })
  finalizer_runs :
      s.main ≡ Main.spawning_finalizer
      → MainStep s (record s { main = Main.spawning_runner; finalizer = Finalizer.waiting })
  runner_fails :
      s.main ≡ Main.spawning_runner
      → MainStep s (record s {
        main = Main.cancelling;
        task = record s.task { finalizer_should_not_run = true };
      })
  cancel :
      s.main ≡ Main.cancelling
      → MainStep s (record s {
        main = Main.closing;
        task = record s.task { finalizer_start = s.task.finalizer_start + 1 };
      })
  close :
      s.main ≡ Main.closing
      → MainStep s (record s { main = Main.refused; given = give_all s.given })
  runner_made :
      (ts : ℕ)
      → s.main ≡ Main.spawning_runner
      → ts ≢ 0
      → MainStep s (record s {
        main = Main.waking;
        runner = Runner.created;
        ts_refs = s.ts_refs + 1;
        task = record s.task { runner_ts = ts };
      })
  wake :
      s.main ≡ Main.waking
      → MainStep s (record s {
        main = Main.waiting_start;
        runner = Runner.started;
        notifiers = s.notifiers + 1;
      })
  start :
      s.main ≡ Main.waiting_start
      → 0 < s.task.exec_start
      → MainStep s (record s {
        main = Main.releasing;
        task = record s.task { exec_start = s.task.exec_start - 1 };
      })
  release :
      s.main ≡ Main.releasing
      → MainStep s (record s {
        main = Main.waiting_end false;
        task = record s.task { finalizer_start = s.task.finalizer_start + 1 };
      })
  kill : s.main ≡ Main.killing → MainStep s (record s { main = Main.waiting_end true })
  end :
      (made_nx : Bool)
      → s.main ≡ Main.waiting_end made_nx
      → 0 < s.task.finalizer_end
      → MainStep s (record s {
        main = Main.reporting made_nx (result_of s.task);
        task = record s.task { finalizer_end = s.task.finalizer_end - 1 };
      })
  report :
      (made_nx : Bool) (r : RunCodeResult)
      → s.main ≡ Main.reporting made_nx r
      → MainStep s (record s {
        main = Main.returned 0;
        ts_refs = s.ts_refs - 1;
        code_x = if made_nx then true else s.code_x;
        notifiers = s.notifiers - 1;
        told = some r;
      })
  -- `copy_to_user` fails; bytes that it copied before that are not counted as told.
  report_faults :
      (made_nx : Bool) (r : RunCodeResult)
      → s.main ≡ Main.reporting made_nx r
      → MainStep s (record s {
        main = Main.returned (neg efault);
        ts_refs = s.ts_refs - 1;
        code_x = if made_nx then true else s.code_x;
        notifiers = s.notifiers - 1;
      })

-- A signal interrupts the handler's last wait: `ee_make_code_nx`.
pub data Interrupt (s : System) : System → Type 0 where
  interrupted :
      (made_nx : Bool)
      → s.main ≡ Main.waiting_end made_nx
      → Interrupt s (record s { main = Main.killing; code_x = false })

-- A step of `task_finalizer`. `kthread_stop` waits for the end of the runner and returns its result.
pub data FinalizerStep (s : System) : System → Type 0 where
  begin :
      s.finalizer ≡ Finalizer.waiting
      → 0 < s.task.finalizer_start
      → FinalizerStep s (record s {
        finalizer = Finalizer.checking;
        task = record s.task { finalizer_start = s.task.finalizer_start - 1 };
      })
  skip :
      s.finalizer ≡ Finalizer.checking
      → s.task.finalizer_should_not_run ≡ true
      → FinalizerStep s (record s { finalizer = Finalizer.done })
  stop :
      s.finalizer ≡ Finalizer.checking
      → s.task.finalizer_should_not_run ≡ false
      → FinalizerStep s (record s { finalizer = Finalizer.stopping })
  stopped :
      (code : ℕ)
      → s.finalizer ≡ Finalizer.stopping
      → s.runner ≡ Runner.exited code
      → FinalizerStep s (record s {
        finalizer = Finalizer.signalling;
        task = record s.task { finalize_ret = code };
      })
  finish :
      s.finalizer ≡ Finalizer.signalling
      → FinalizerStep s (record s {
        finalizer = Finalizer.done;
        task = record s.task { finalizer_end = s.task.finalizer_end + 1 };
      })

-- A step of `code_runner`, for a request with that `param_count`. Compiled code returns, or the thread
-- ends in it: by `do_exit`, or killed.
pub data RunnerStep (param_count : ℕ) (s : System) : System → Type 0 where
  begin :
      s.runner ≡ Runner.started
      → RunnerStep param_count s (record s {
        runner = Runner.unsharing;
        task = record s.task { exec_start = s.task.exec_start + 1 };
      })
  unshare_fails :
      s.runner ≡ Runner.unsharing
      → RunnerStep param_count s (record s { runner = Runner.leaving; given = give_all s.given })
  unshared :
      s.runner ≡ Runner.unsharing
      → RunnerStep param_count s (record s { runner = Runner.opening_stdin })
  stdin_fails :
      s.runner ≡ Runner.opening_stdin
      → RunnerStep param_count s (record s { runner = Runner.leaving; given = give_all s.given })
  stdin_opened :
      s.runner ≡ Runner.opening_stdin
      → RunnerStep param_count s
          (record s { runner = Runner.opening_stdout; given = give_stdin s.given })
  stdout_fails :
      s.runner ≡ Runner.opening_stdout
      → RunnerStep param_count s
          (record s { runner = Runner.leaving; given = give_stdout (give_stderr s.given) })
  stdout_opened :
      s.runner ≡ Runner.opening_stdout
      → RunnerStep param_count s
          (record s { runner = Runner.opening_stderr; given = give_stdout s.given })
  stderr_fails :
      s.runner ≡ Runner.opening_stderr
      → RunnerStep param_count s (record s { runner = Runner.leaving; given = give_stderr s.given })
  stderr_opened :
      s.runner ≡ Runner.opening_stderr
      → RunnerStep param_count s
          (record s { runner = Runner.preparing; given = give_stderr s.given })
  prepare :
      s.runner ≡ Runner.preparing
      → RunnerStep param_count s
          (record s { runner = Runner.entering; calls = State.prepare s.calls })
  bad_params :
      s.runner ≡ Runner.entering
      → param_count ≢ 0
      → RunnerStep param_count s (record s { runner = Runner.leaving })
  call :
      s.runner ≡ Runner.entering
      → param_count ≡ 0
      → RunnerStep param_count s (record s {
        runner = Runner.calling;
        called = true;
        calls = Call.allow_sigkill ∷ s.calls;
      })
  return :
      (value : ℕ)
      → s.runner ≡ Runner.calling
      → RunnerStep param_count s
          (record s { runner = Runner.leaving; task = record s.task { ret = value } })
  die :
      (code : ℕ)
      → s.runner ≡ Runner.calling
      → RunnerStep param_count s (record s { runner = Runner.exited code })
  leave :
      s.runner ≡ Runner.leaving → RunnerStep param_count s (record s { runner = Runner.exited 0 })

-- A step that is no interrupt, and any step.
pub data Work (param_count : ℕ) (s : System) (t : System) : Type 0 where
  main : MainStep s t → Work param_count s t
  finalizer : FinalizerStep s t → Work param_count s t
  runner : RunnerStep param_count s t → Work param_count s t

pub data Step (param_count : ℕ) (s : System) (t : System) : Type 0 where
  work : Work param_count s t → Step param_count s t
  signal : Interrupt s t → Step param_count s t

-- The states that `handle_wasm_run_code` reaches from where the files are open.
pub data Reach (param_count notifiers : ℕ) : System → Type 0 where
  here : Reach param_count notifiers (prepared notifiers)
  next :
      {s t : System}
      → Reach param_count notifiers s
      → Step param_count s t
      → Reach param_count notifiers t
