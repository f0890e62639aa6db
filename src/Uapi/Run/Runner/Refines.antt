-- ===== src/Uapi/Run/Runner/Refines.antt =====
-- uapi.c: `code_runner` ends, and takes just the steps that Uapi/Run/Threads allows its thread.
use kernel_wasm.Base.{
  ℕ, suc, ◌≡◌, ◌≢◌, refl, ap, ◌∙◌, inl, inr, Bool, true, false, not, ◌⊎◌, some, ◌==◌, is_neg, arith,
  if◌then◌else◌,
}
use kernel_wasm.Uapi.Run.Runner.{
  Outcome, Surroundings, called_with, call_code, ready_thread, open_stderr, open_stdout, open_stdin,
  code_runner_inner, Stage, Coroutine, is_over, call_entry, run_loop, leave_thread, code_runner,
}
use kernel_wasm.Uapi.Run.Stdio.{RunCodeRequest}
use kernel_wasm.Uapi.Run.State.{Runner, System}
use kernel_wasm.Uapi.Run.Threads.{RunnerStep}
use kernel_wasm.Vm.Engine.{Engine}
use kernel_wasm.Vm.Kallsyms.{vm_unshare_executor_files}

-- Steps of the runner, one after the other.
pub data RunnerSteps (k : ℕ) : System → System → Type 0 where
  stop : {s : System} → RunnerSteps k s s
  go : {s t u : System} → RunnerStep k s t → RunnerSteps k t u → RunnerSteps k s u

-- `code_runner_inner` has returned, or the thread has ended in compiled code.
abbrev HasLeft : System → Type 0
HasLeft s = (s.runner ≡ Runner.leaving) ⊎ ((code : ℕ) × (s.runner ≡ Runner.exited code))

-- From one state to another that has left.
record Runs (k : ℕ) (s t : System) : Type 0 where
  steps : RunnerSteps k s t
  left : HasLeft t

after : {k : ℕ} {s t u : System} → RunnerStep k s t → Runs k t u → Runs k s u
after st r = record { steps = go st r.steps; left = r.left }

leaves : {k : ℕ} {s t : System} → RunnerStep k s t → t.runner ≡ Runner.leaving → Runs k s t
leaves st e = record { steps = go st stop; left = inl e }

-- The last step.
then_leaves :
    {k : ℕ} {s t : System}
    → RunnerSteps k s t
    → t.runner ≡ Runner.leaving
    → RunnerSteps k s (record t { runner = Runner.exited 0 })
then_leaves stop e = go (RunnerStep.leave e) stop
then_leaves (go st rest) e = go st (then_leaves rest e)

module _ (k : ℕ) (s : System) where
  -- A branch of a test may use how the test came out.
  if-Runs :
      (test : Bool) (t u : System)
      → (test ≡ true → Runs k s t)
      → (test ≡ false → Runs k s u)
      → Runs k s (if test then t else u)
  if-Runs true t u left right = left refl
  if-Runs false t u left right = right refl

  called_with-Runs : (o : Outcome) → s.runner ≡ Runner.entering → k ≡ 0 → Runs k s (called_with o s)
  called_with-Runs (Outcome.value v) e h =
      after (RunnerStep.call e h) (leaves (RunnerStep.return v refl) refl)
  called_with-Runs (Outcome.dead code) e h =
      after (RunnerStep.call e h)
        (record { steps = go (RunnerStep.die code refl) stop; left = inr (code, refl) })

module _ (os : Surroundings) (ee : Engine) (req : RunCodeRequest) where
  call_code-Runs :
      (s : System) → s.runner ≡ Runner.entering → Runs req.param_count s (call_code os ee req s)
  unfolding call_code
  call_code-Runs s e =
      if-Runs req.param_count s (not (req.param_count == 0)) _ _
        (λ some_given. leaves (RunnerStep.bad_params e (ground arith)) refl)
        (λ none_given. called_with-Runs req.param_count s _ e (ground arith))

  ready_thread-Runs :
      (s : System) → s.runner ≡ Runner.preparing → Runs req.param_count s (ready_thread os ee req s)
  unfolding ready_thread
  ready_thread-Runs s e = after (RunnerStep.prepare e) (call_code-Runs _ refl)

  open_stderr-Runs :
      (s : System)
      → s.runner ≡ Runner.opening_stderr
      → Runs req.param_count s (open_stderr os ee req s)
  unfolding open_stderr
  open_stderr-Runs s e =
      if-Runs req.param_count s (is_neg os.stderr_fd) _ _
        (λ bad. leaves (RunnerStep.stderr_fails e) refl)
        (λ good. after (RunnerStep.stderr_opened e) (ready_thread-Runs _ refl))

  open_stdout-Runs :
      (s : System)
      → s.runner ≡ Runner.opening_stdout
      → Runs req.param_count s (open_stdout os ee req s)
  unfolding open_stdout
  open_stdout-Runs s e =
      if-Runs req.param_count s (is_neg os.stdout_fd) _ _
        (λ bad. leaves (RunnerStep.stdout_fails e) refl)
        (λ good. after (RunnerStep.stdout_opened e) (open_stderr-Runs _ refl))

  open_stdin-Runs :
      (s : System)
      → s.runner ≡ Runner.opening_stdin
      → Runs req.param_count s (open_stdin os ee req s)
  unfolding open_stdin
  open_stdin-Runs s e =
      if-Runs req.param_count s (is_neg os.stdin_fd) _ _
        (λ bad. leaves (RunnerStep.stdin_fails e) refl)
        (λ good. after (RunnerStep.stdin_opened e) (open_stdout-Runs _ refl))

  code_runner_inner-Runs :
      (s : System)
      → s.runner ≡ Runner.started
      → Runs req.param_count s (code_runner_inner os ee req s)
  unfolding code_runner_inner
  code_runner_inner-Runs s e = after (RunnerStep.begin e) (
      if-Runs req.param_count _ (is_neg (vm_unshare_executor_files os.files).0) _ _
        (λ bad. leaves (RunnerStep.unshare_fails refl) refl)
        (λ good. after (RunnerStep.unshared refl) (open_stdin-Runs _ refl)))

-- Before `start_coroutine`'s first switch has come back, and after the second.
abbrev fresh : Coroutine
fresh = record { stage = Stage.first_switch; terminated = 0 }

abbrev finished : Coroutine
finished = record { stage = Stage.second_switch; terminated = 1 }

started-is_over : (s : System) → s.runner ≡ Runner.started → is_over s ≡ false
unfolding is_over
started-is_over s e = rw e refl

returned-is_over : (s : System) → s.runner ≡ Runner.leaving → is_over s ≡ false
unfolding is_over
returned-is_over s e = rw e refl

died-is_over : (s : System) (code : ℕ) → s.runner ≡ Runner.exited code → is_over s ≡ true
unfolding is_over
died-is_over s code e = rw e refl

loop_returned :
    (fuel : ℕ) (entry : System → System) (s : System)
    → is_over s ≡ false
    → is_over (entry s) ≡ false
    → run_loop (suc (suc fuel)) entry (fresh, s) ≡ some (finished, entry s)
unfolding run_loop call_entry
loop_returned fuel entry s e left = simp (e, left) refl

loop_died :
    (fuel : ℕ) (entry : System → System) (s : System)
    → is_over s ≡ false
    → is_over (entry s) ≡ true
    → run_loop (suc (suc fuel)) entry (fresh, s) ≡ some (fresh, entry s)
unfolding run_loop call_entry
loop_died fuel entry s e left = simp (e, left) refl

-- `code_runner` ends, its loop entered at most twice, and on the way it has taken just steps that
-- Uapi/Run/Threads gives its thread, the last of which ends the thread; `call_entry` has not come to
-- its end, behind which there is no code.
pub code_runner_refines :
    (fuel : ℕ) (os : Surroundings) (ee : Engine) (req : RunCodeRequest) (s : System)
    → s.runner ≡ Runner.started
    → (co : Coroutine) × (t : System) × (code : ℕ) × (code_runner (suc (suc fuel)) os ee req s
        ≡ some (co, t))
      × RunnerSteps req.param_count s t
      × (t.runner ≡ Runner.exited code)
      × (co.stage ≢ Stage.ended)
unfolding code_runner
code_runner_refines fuel os ee req s e =
    let r = code_runner_inner-Runs os ee req s e in
    let entry = code_runner_inner os ee req in
    let u = entry s in
    let idle = started-is_over s e in
    elim r.left [
      | inl left ↦
          (let on = returned-is_over u left in
            (
              finished,
              record u { runner = Runner.exited 0 },
              0,
              ap leave_thread (loop_returned fuel entry s idle on) ∙ rw on refl,
              then_leaves r.steps left,
              refl,
              ground arith,
            ))
      | inr (code, died) ↦
          (let over = died-is_over u code died in
            (
              fresh,
              u,
              code,
              ap leave_thread (loop_died fuel entry s idle over) ∙ rw over refl,
              r.steps,
              died,
              ground arith,
            ))
    ]
