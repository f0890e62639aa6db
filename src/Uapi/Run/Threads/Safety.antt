-- ===== src/Uapi/Run/Threads/Safety.antt =====
-- What `handle_wasm_run_code` of uapi.c keeps and gives back, whatever the order of its threads.
use kernel_wasm.Base.{
  ℕ, ◌≤◌, ◌≡◌, refl, ◌⊎◌, true, false, none, some, neg, arith, ◌==◌, if◌then◌else◌,
}
use kernel_wasm.Kernel.{efault, einval}
use kernel_wasm.Uapi.Run.State.{RunCodeResult, Main, Finalizer, Runner, System, return_value}
use kernel_wasm.Uapi.Run.Threads.{Reach, here, next, Step, Work, MainStep}
use kernel_wasm.Uapi.Run.Threads.Invariant.{Inv, Reach-Inv}
use kernel_wasm.Uapi.Run.Threads.Semaphores.{gave_start}

-- When the handler returns after a run, the runner has ended and the finalizer is through, so that
-- neither uses the handler's local variables any more; and if the handler returns 0, the user was told
-- success and the value that the runner left if the runner's result is 0, and no success otherwise;
-- if it does not return 0, it returns -EFAULT and the user was told nothing.
pub returned_after_run :
    {k n : ℕ} {s : System} (ret : ℕ)
    → Reach k n s
    → s.main ≡ Main.returned ret
    → (s.finalizer ≡ Finalizer.done)
      × (code : ℕ) × (s.runner ≡ Runner.exited code)
      × (((ret ≡ 0)
            × (s.told
                ≡ some (
                    if code == 0
                    then record { success = 1; retval = s.task.ret }
                    else record { success = 0; retval = 0 })))
          ⊎ ((ret ≡ neg efault) × (s.told ≡ none)))
returned_after_run {n} {s} ret r e =
    let v : Inv n s = Reach-Inv r in
    let t = v.tokens in
    let q = v.results in (ground arith, s.task.finalize_ret, ground arith, ground arith)

-- The references to the three files are never given away twice; and when the handler returns, on
-- whatever path, each has been given away: to `fput`, or to a descriptor of the runner.
pub files_given_once :
    {k n : ℕ} {s : System}
    → Reach k n s
    → (s.given.stdin ≤ 1)
      × (s.given.stdout ≤ 1)
      × (s.given.stderr ≤ 1)
      × ((return_value s.main ≡ none)
          ⊎ ((s.given.stdin ≡ 1) × (s.given.stdout ≡ 1) × (s.given.stderr ≡ 1)))
files_given_once {n} {s} r =
    let v : Inv n s = Reach-Inv r in
    let t = v.tokens in
    let q = v.results in
    let u = v.resources in (ground arith, ground arith, ground arith, ground arith)

-- When the handler returns, on whatever path, the code is executable again, the count of preemption
-- notifiers is what it was, and the handler holds no reference to the runner.
pub restored_at_return :
    {k n : ℕ} {s : System} (ret : ℕ)
    → Reach k n s
    → return_value s.main ≡ some ret
    → (s.code_x ≡ true) × (s.notifiers ≡ n) × (s.ts_refs ≡ 0)
restored_at_return {n} {s} ret r e =
    let v : Inv n s = Reach-Inv r in let u = v.resources in ground arith

-- The finalizer is in `kthread_stop` only when the runner has begun to run: it is past
-- `up(&task->exec_start)`.
stopped_only_begun :
    {k n : ℕ} {s : System}
    → Reach k n s
    → s.finalizer ≡ Finalizer.stopping
    → gave_start s.runner ≡ 1
stopped_only_begun {n} {s} r e = let v : Inv n s = Reach-Inv r in let t = v.tokens in ground arith

-- If the handler has told the user a result of a run in which compiled code was never entered (the
-- files could not be set up, or `param_count` is not 0), the result is success with the value 0.
pub unrun_reports_success :
    {k n : ℕ} {s : System} (result : RunCodeResult)
    → Reach k n s
    → s.told ≡ some result
    → s.called ≡ false
    → result ≡ record { success = 1; retval = 0 }
unrun_reports_success {n} {s} result r e h =
    let v : Inv n s = Reach-Inv r in let t = v.tokens in let q = v.results in ground arith

-- Whatever the request, if `kthread_create` fails the handler can return -EINVAL while the finalizer,
-- which it has told to end, has yet to take the semaphore and read the flag, both of them local
-- variables of the handler.
pub refused_leaves_finalizer :
    (k n : ℕ)
    → (s : System) × Reach k n s
      × (return_value s.main ≡ some (neg einval))
      × (s.finalizer ≡ Finalizer.waiting)
      × (s.task.finalizer_start ≡ 1)
refused_leaves_finalizer k n = (
  _,
  next
      (next
        (next (next here (Step.work (Work.main (MainStep.finalizer_runs refl))))
          (Step.work (Work.main (MainStep.runner_fails refl))))
        (Step.work (Work.main (MainStep.cancel refl))))
      (Step.work (Work.main (MainStep.close refl))),
  refl,
  refl,
  refl,
)
