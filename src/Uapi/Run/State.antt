-- ===== src/Uapi/Run/State.antt =====
-- uapi.c: where the three threads of `handle_wasm_run_code` stand, and what they share.
use kernel_wasm.Base.{
  ℕ, ◌+◌, Bool, true, false, ◌==◌, if◌then◌else◌, Option, none, some, neg, List, [], ◌∷◌,
}
use kernel_wasm.Kernel.{einval}

-- The fields of `struct code_runner_task` that change; the semaphores are their counts, and
-- `runner_ts` is 0 for NULL.
pub record Task : Type 0 where
  pub exec_start : ℕ
  pub finalizer_start : ℕ
  pub finalizer_end : ℕ
  pub ret : ℕ
  pub finalize_ret : ℕ
  pub runner_ts : ℕ
  pub finalizer_should_not_run : Bool

-- How often the reference to each of the three files was given away: to `fput`, or to a descriptor
-- by `fd_install`.
pub record Given : Type 0 where
  pub stdin : ℕ
  pub stdout : ℕ
  pub stderr : ℕ

-- `struct run_code_result`.
pub record RunCodeResult : Type 0 where
  pub success : ℕ
  pub retval : ℕ

-- Where the handler stands, with its local `made_nx`.
pub data Main : Type 0 where
  spawning_finalizer : Main  -- at `kthread_run`
  failed : Main  -- returned: no finalizer could be started
  spawning_runner : Main  -- at `kthread_create`
  cancelling : Main  -- `finalizer_should_not_run` is set
  closing : Main  -- at the three `fput` after `up(&task.finalizer_start)`
  refused : Main  -- returned: no runner could be made
  waking : Main  -- at `preempt_notifier_inc` and `wake_up_process`
  waiting_start : Main  -- at `down(&task.exec_start)`
  releasing : Main  -- at `up(&task.finalizer_start)`
  waiting_end : (made_nx : Bool) → Main  -- at `down_interruptible(&task.finalizer_end)`
  killing : Main  -- at `kill_pid`
  reporting : (made_nx : Bool) (result : RunCodeResult) → Main  -- at `put_task_struct`
  returned : (ret : ℕ) → Main  -- returned after a run

-- What the handler has returned, once it has.
abbrev pub return_value : Main → Option ℕ
return_value Main.failed = some (neg einval)
return_value Main.refused = some (neg einval)
return_value (Main.returned ret) = some ret
return_value _ = none

-- Where `task_finalizer` stands.
pub data Finalizer : Type 0 where
  absent : Finalizer
  waiting : Finalizer  -- at `down(&task->finalizer_start)`
  checking : Finalizer  -- at the test of `finalizer_should_not_run`
  stopping : Finalizer  -- in `kthread_stop`
  signalling : Finalizer  -- at `up(&task->finalizer_end)`
  done : Finalizer

-- Where `code_runner` stands, in `code_runner_inner` or behind it.
pub data Runner : Type 0 where
  unmade : Runner
  created : Runner  -- made by `kthread_create`, not yet woken
  started : Runner  -- at `up(&task->exec_start)`
  unsharing : Runner  -- at `vm_unshare_executor_files`
  opening_stdin : Runner  -- at the first `get_unused_fd_flags`
  opening_stdout : Runner
  opening_stderr : Runner
  preparing : Runner  -- at `kernel_fpu_begin`
  entering : Runner  -- at the test of `param_count`
  calling : Runner  -- in `ee_call0`
  leaving : Runner  -- `code_runner_inner` has returned
  exited : (code : ℕ) → Runner  -- the thread has ended with that result

-- The calls by which the runner's thread readies itself for compiled code.
pub data Call : Type 0 where
  kernel_fpu_begin preempt_notifier_init preempt_notifier_register preempt_enable : Call
  allow_sigkill : Call  -- `allow_signal(SIGKILL)`

-- What the threads share: the task, the executability of the code, the count of
-- `preempt_notifier_inc`, the references to the runner's `task_struct` that the handler holds, and what
-- was copied to the user. `called` records that `ee_call0` was reached, `calls` what the runner's
-- thread has called for it, the last call first.
pub record System : Type 0 where
  pub main : Main
  pub finalizer : Finalizer
  pub runner : Runner
  pub task : Task
  pub given : Given
  pub code_x : Bool
  pub notifiers : ℕ
  pub ts_refs : ℕ
  pub told : Option RunCodeResult
  pub called : Bool
  pub calls : List Call

-- `memset` and `sema_init`, with the code executable.
abbrev pub prepared : (notifiers : ℕ) → System
prepared n = record {
  main = Main.spawning_finalizer;
  finalizer = Finalizer.absent;
  runner = Runner.unmade;
  task = record {
    exec_start = 0;
    finalizer_start = 0;
    finalizer_end = 0;
    ret = 0;
    finalize_ret = 0;
    runner_ts = 0;
    finalizer_should_not_run = false;
  };
  given = record { stdin = 0; stdout = 0; stderr = 0 };
  code_x = true;
  notifiers = n;
  ts_refs = 0;
  told = none;
  called = false;
  calls = [];
}

-- References given away.
abbrev pub give_stdin : Given → Given
give_stdin g = record g { stdin = g.stdin + 1 }

abbrev pub give_stdout : Given → Given
give_stdout g = record g { stdout = g.stdout + 1 }

abbrev pub give_stderr : Given → Given
give_stderr g = record g { stderr = g.stderr + 1 }

abbrev pub give_all : Given → Given
give_all g = give_stdin (give_stdout (give_stderr g))

-- What stands before the test of `param_count`.
abbrev pub prepare : List Call → List Call
prepare calls =
    Call.preempt_enable ∷ Call.preempt_notifier_register ∷ Call.preempt_notifier_init
    ∷ Call.kernel_fpu_begin ∷ calls

-- The result that the handler makes of `finalize_ret` and `ret`.
abbrev pub result_of : Task → RunCodeResult
result_of t =
    if t.finalize_ret == 0
    then record { success = 1; retval = t.ret }
    else record { success = 0; retval = 0 }
