-- ===== src/Uapi/Run/Threads/Liveness.antt =====
-- `handle_wasm_run_code` of uapi.c cannot get stuck, and ends.
use kernel_wasm.Base.{ℕ, zero, suc, ◌+◌, ◌≤◌, ◌<◌, ◌≡◌, inl, inr, arith}
use kernel_wasm.Uapi.Run.State.{Main, Finalizer, Runner, System, prepared}
use kernel_wasm.Uapi.Run.Threads.{
  MainStep, Interrupt, FinalizerStep, RunnerStep, Work, Step, Reach, here, next,
}
use kernel_wasm.Uapi.Run.Threads.Guards.{main_guard, finalizer_guard, runner_guard}
use kernel_wasm.Uapi.Run.Threads.Invariant.{Inv, Reach-Inv}
use kernel_wasm.Uapi.Run.Threads.Progress.{IsOver, work_next}
use kernel_wasm.Uapi.Run.Threads.Semaphores.{Tokens}

-- How many steps a thread has left at most, interrupts aside.
abbrev pub main_left : Main → ℕ
main_left Main.spawning_finalizer = 8
main_left Main.spawning_runner = 7
main_left Main.waking = 6
main_left Main.waiting_start = 5
main_left Main.releasing = 4
main_left Main.killing = 3
main_left (Main.waiting_end _) = 2
main_left Main.cancelling = 2
main_left Main.closing = 1
main_left (Main.reporting _ _) = 1
main_left _ = 0

abbrev pub finalizer_left : Finalizer → ℕ
finalizer_left Finalizer.absent = 5
finalizer_left Finalizer.waiting = 4
finalizer_left Finalizer.checking = 3
finalizer_left Finalizer.stopping = 2
finalizer_left Finalizer.signalling = 1
finalizer_left Finalizer.done = 0

abbrev pub runner_left : Runner → ℕ
runner_left Runner.unmade = 11
runner_left Runner.created = 10
runner_left Runner.started = 9
runner_left Runner.unsharing = 8
runner_left Runner.opening_stdin = 7
runner_left Runner.opening_stdout = 6
runner_left Runner.opening_stderr = 5
runner_left Runner.preparing = 4
runner_left Runner.entering = 3
runner_left Runner.calling = 2
runner_left Runner.leaving = 1
runner_left (Runner.exited _) = 0

abbrev pub left : System → ℕ
left s = main_left s.main + finalizer_left s.finalizer + runner_left s.runner

MainStep-left : {s t : System} → Tokens s → MainStep s t → left t < left s
MainStep-left v (MainStep.start e h) = ground arith
MainStep-left v st = ground (arith, main_guard st)

FinalizerStep-left : {s t : System} → FinalizerStep s t → left t < left s
FinalizerStep-left (FinalizerStep.begin e h) = ground arith
FinalizerStep-left st = ground (arith, finalizer_guard st)

RunnerStep-left : {k : ℕ} {s t : System} → RunnerStep k s t → left t < left s
RunnerStep-left (RunnerStep.begin e) = ground arith
RunnerStep-left st = ground (arith, runner_guard st)

-- Each step but an interrupt leaves fewer, and an interrupt leaves one more.
Work-left : {k : ℕ} {s t : System} → Tokens s → Work k s t → left t < left s
Work-left v (Work.main st) = MainStep-left v st
Work-left v (Work.finalizer st) = FinalizerStep-left st
Work-left v (Work.runner st) = RunnerStep-left st

Interrupt-left : {s t : System} → Interrupt s t → left t ≡ left s + 1
Interrupt-left (Interrupt.interrupted m e) = ground arith

-- A sequence of steps, with the number of those that are no interrupts and of those that are.
pub data Steps (k : ℕ) : System → (works interrupts : ℕ) → System → Type 0 where
  nothing : {s : System} → Steps k s 0 0 s
  work :
      {s t u : System} {works interrupts : ℕ}
      → Work k s t
      → Steps k t works interrupts u
      → Steps k s (suc works) interrupts u
  interrupt :
      {s t u : System} {works interrupts : ℕ}
      → Interrupt s t
      → Steps k t works interrupts u
      → Steps k s works (suc interrupts) u

Steps-left :
    {k n : ℕ} {s t : System} {works interrupts : ℕ}
    → Reach k n s
    → Steps k s works interrupts t
    → left t + works ≤ left s + interrupts
Steps-left r nothing = omega arith
Steps-left {n} {s} r (work w p) =
    let v : Inv n s = Reach-Inv r in
    omega (arith, Steps-left (next r (Step.work w)) p, Work-left v.tokens w)
Steps-left r (interrupt i p) =
    omega (arith, Steps-left (next r (Step.signal i)) p, Interrupt-left i)

-- From where the files are open, the threads make at most 24 steps, and one more, the `kill_pid`, for
-- each signal that interrupts the handler; the interruptions are not counted among the steps.
pub moves_bounded :
    {k n works interrupts : ℕ} {t : System}
    → Steps k (prepared n) works interrupts t
    → works ≤ 24 + interrupts
moves_bounded {n} p = omega (arith, Steps-left {n = n} here p)

end_within :
    {k n : ℕ} (fuel : ℕ) (s : System)
    → Reach k n s
    → left s ≤ fuel
    → (t : System) × (works : ℕ) × Steps k s works 0 t × IsOver t
end_within {k} {n} zero s r h =
    let v : Inv n s = Reach-Inv r in
    elim (work_next k s v.tokens) [
      | inr over ↦ (s, 0, nothing, over)
      | inl (t, w) ↦ absurd (omega (arith, Work-left v.tokens w))
    ]
end_within {k} {n} (suc fuel) s r h =
    let v : Inv n s = Reach-Inv r in
    elim (work_next k s v.tokens) [
      | inr over ↦ (s, 0, nothing, over)
      | inl (t, w) ↦
          let (u, works, p, over) =
            end_within fuel t (next r (Step.work w)) (omega (arith, Work-left v.tokens w)) in
          (u, suc works, work w p, over)
    ]

-- Nothing blocks for good: from every state that the threads reach there is a way, with no further
-- signal, to one in which the handler has returned and no other thread is left.
pub always_ends :
    {k n : ℕ} {s : System}
    → Reach k n s
    → (t : System) × (works : ℕ) × Steps k s works 0 t × IsOver t
always_ends {s} r = end_within (left s) s r (omega arith)
