-- ===== src/Uapi/Run/Runner.antt =====
-- uapi.c: `code_runner` as the code of one thread, with `call_entry` of coroutine.h and `ee_call0` of
-- vm.c.
pub mod Refines
use kernel_wasm.Base.{
  ℕ, zero, suc, ◌+◌, Bool, true, false, Option, none, some, ◌==◌, ◌||◌, if◌then◌else◌, is_neg, not,
  ◌∷◌, u32, u64,
}
use kernel_wasm.Uapi.Run.Stdio.{RunCodeRequest}
use kernel_wasm.Uapi.Run.State.{
  Runner, System, Call, prepare, give_all, give_stdin, give_stdout, give_stderr,
}
use kernel_wasm.Vm.Engine.{Engine}
use kernel_wasm.Vm.Kallsyms.{Unshared, vm_unshare_executor_files}

-- What becomes of a call of compiled code: it returns, or its thread ends.
pub data Outcome : Type 0 where
  value : (v : ℕ) → Outcome
  dead : (code : ℕ) → Outcome

-- What the kernel gives the thread: its file table, the descriptors of the three calls of
-- `get_unused_fd_flags`, and what the compiled code at an address does.
pub record Surroundings : Type 0 where
  pub files : Unshared
  pub stdin_fd : ℕ
  pub stdout_fd : ℕ
  pub stderr_fd : ℕ
  pub code_at : (address : ℕ) → Outcome

-- `ee_call0`.
unfoldable pub ee_call0 : Surroundings → Engine → (offset : ℕ) → Outcome
ee_call0 os ee offset = os.code_at (u64 (ee.code + u32 offset))

-- Behind the call.
abbrev pub called_with : Outcome → System → System
called_with (Outcome.value v) s = record s {
  runner = Runner.leaving;
  called = true;
  calls = Call.allow_sigkill ∷ s.calls;
  task = record s.task { ret = v };
}
called_with (Outcome.dead code) s = record s {
  runner = Runner.exited code;
  called = true;
  calls = Call.allow_sigkill ∷ s.calls;
}

module _ (os : Surroundings) (ee : Engine) (req : RunCodeRequest) where
  -- `code_runner_inner` from the test of `param_count` on.
  unfoldable pub call_code : System → System
  call_code s =
      if not (req.param_count == 0)
      then record s { runner = Runner.leaving }
      else called_with (ee_call0 os ee req.entry_offset) s

  -- From `kernel_fpu_begin` on.
  unfoldable pub ready_thread : System → System
  ready_thread s = call_code (record s { runner = Runner.entering; calls = prepare s.calls })

  -- From each call of `get_unused_fd_flags` on.
  unfoldable pub open_stderr : System → System
  open_stderr s =
      if is_neg os.stderr_fd
      then record s { runner = Runner.leaving; given = give_stderr s.given }
      else ready_thread (record s { runner = Runner.preparing; given = give_stderr s.given })

  unfoldable pub open_stdout : System → System
  open_stdout s =
      if is_neg os.stdout_fd
      then record s { runner = Runner.leaving; given = give_stdout (give_stderr s.given) }
      else open_stderr (record s { runner = Runner.opening_stderr; given = give_stdout s.given })

  unfoldable pub open_stdin : System → System
  open_stdin s =
      if is_neg os.stdin_fd
      then record s { runner = Runner.leaving; given = give_all s.given }
      else open_stdout (record s { runner = Runner.opening_stdout; given = give_stdin s.given })

  -- `code_runner_inner`.
  unfoldable pub code_runner_inner : System → System
  code_runner_inner s =
      let s₁ = record s {
        runner = Runner.unsharing;
        task = record s.task { exec_start = s.task.exec_start + 1 };
      } in
      let (ret, put) = vm_unshare_executor_files os.files in
      if is_neg ret
      then record s₁ { runner = Runner.leaving; given = give_all s₁.given }
      else open_stdin (record s₁ { runner = Runner.opening_stdin })

-- Where `call_entry` stands: in one of its two calls of `co_switch`, or at its end.
pub data Stage : Type 0 where
  first_switch second_switch ended : Stage

-- `struct Coroutine`, whose stack and entry stay the same here.
pub record Coroutine : Type 0 where
  pub stage : Stage
  pub terminated : ℕ

-- The thread has ended.
unfoldable pub is_over : System → Bool
is_over s = elim s.runner as (λ r. Bool) [ Runner.exited _ ↦ true | _ ↦ false ]

-- `call_entry` with that `co->entry`, from one `co_switch` to the next.
unfoldable pub call_entry :
    (entry : System → System) → Stage → Coroutine × System → Coroutine × System
call_entry entry Stage.first_switch (co, s) =
    let s₁ = entry s in
    if is_over s₁ then (co, s₁) else (record { stage = Stage.second_switch; terminated = 1 }, s₁)
call_entry entry _ (co, s) = (record co { stage = Stage.ended }, s)

-- The loop of `code_runner`, unless the thread has ended in it.
unfoldable pub run_loop :
    (fuel : ℕ) → (entry : System → System) → Coroutine × System → Option (Coroutine × System)
run_loop zero entry (co, s) = none
run_loop (suc fuel) entry (co, s) =
    let rest = run_loop fuel entry (call_entry entry co.stage (co, s)) in
    if is_over s || not (co.terminated == 0) then some (co, s) else rest

-- `return 0`, which ends the thread.
abbrev pub leave_thread : Option (Coroutine × System) → Option (Coroutine × System)
leave_thread none = none
leave_thread (some (co, s)) =
    some (co, if is_over s then s else record s { runner = Runner.exited 0 })

-- `code_runner`, to the end of its thread; `start_coroutine` goes to the first `co_switch`.
unfoldable pub code_runner :
    (fuel : ℕ) → Surroundings → Engine → RunCodeRequest → System → Option (Coroutine × System)
code_runner fuel os ee req s = leave_thread (
    run_loop fuel (code_runner_inner os ee req)
      (record { stage = Stage.first_switch; terminated = 0 }, s))
