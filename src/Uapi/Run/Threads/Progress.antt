-- ===== src/Uapi/Run/Threads/Progress.antt =====
-- uapi.c: as long as a thread of `handle_wasm_run_code` is there, one of them can make a step.
use kernel_wasm.Base.{
  ℕ, ◌≡◌, refl, ◌⊎◌, inl, inr, Bool, true, false, some, arith, is_some, ◌==◌, ltb, Bool-cases,
}
use kernel_wasm.Uapi.Run.State.{Main, Finalizer, Runner, System, return_value}
use kernel_wasm.Uapi.Run.Threads.{MainStep, FinalizerStep, RunnerStep, Work}
use kernel_wasm.Uapi.Run.Threads.Semaphores.{Tokens, runner_phase, gave_release}

-- The thread is not there, or no longer.
abbrev pub no_finalizer : Finalizer → Bool
no_finalizer Finalizer.absent = true
no_finalizer Finalizer.done = true
no_finalizer _ = false

abbrev pub no_runner : Runner → Bool
no_runner Runner.unmade = true
no_runner (Runner.exited _) = true
no_runner _ = false

-- The handler has returned, and no other thread is there any more.
pub record IsOver (s : System) : Type 0 where
  pub returned : is_some (return_value s.main) ≡ true
  pub finalizer : no_finalizer s.finalizer ≡ true
  pub runner : no_runner s.runner ≡ true

-- What a state can do next, by work.
abbrev pub CanMove : (k : ℕ) → System → Type 0
CanMove k s = (t : System) × Work k s t

module _ (k : ℕ) (s : System) where
  -- A runner that has been woken can move, or has ended.
  runner_next :
      (r : Runner)
      → s.runner ≡ r
      → runner_phase r ≡ 2
      → CanMove k s ⊎ ((code : ℕ) × (r ≡ Runner.exited code))
  runner_next Runner.unmade e h = absurd (omega arith)
  runner_next Runner.created e h = absurd (omega arith)
  runner_next Runner.started e h = inl (_, Work.runner (RunnerStep.begin e))
  runner_next Runner.unsharing e h = inl (_, Work.runner (RunnerStep.unshared e))
  runner_next Runner.opening_stdin e h = inl (_, Work.runner (RunnerStep.stdin_opened e))
  runner_next Runner.opening_stdout e h = inl (_, Work.runner (RunnerStep.stdout_opened e))
  runner_next Runner.opening_stderr e h = inl (_, Work.runner (RunnerStep.stderr_opened e))
  runner_next Runner.preparing e h = inl (_, Work.runner (RunnerStep.prepare e))
  runner_next Runner.entering e h = elim (Bool-cases (k == 0)) [
    | inl good ↦ inl (_, Work.runner (RunnerStep.call e (ground arith)))
    | inr bad ↦ inl (_, Work.runner (RunnerStep.bad_params e (ground arith)))
  ]
  runner_next Runner.calling e h = inl (_, Work.runner (RunnerStep.die 0 e))
  runner_next Runner.leaving e h = inl (_, Work.runner (RunnerStep.leave e))
  runner_next (Runner.exited code) e h = inr (code, refl)

  module _ (v : Tokens s) where
    -- A finalizer that has been told to begin can move, or waits for a runner that can, or is through.
    finalizer_next :
        (f : Finalizer)
        → s.finalizer ≡ f
        → gave_release s.main ≡ 1
        → CanMove k s ⊎ (f ≡ Finalizer.done)
    finalizer_next Finalizer.absent e h = absurd (ground arith)
    finalizer_next Finalizer.waiting e h =
        inl (_, Work.finalizer (FinalizerStep.begin e (ground arith)))
    finalizer_next Finalizer.checking e h = elim (Bool-cases s.task.finalizer_should_not_run) [
      | inl set ↦ inl (_, Work.finalizer (FinalizerStep.skip e set))
      | inr unset ↦ inl (_, Work.finalizer (FinalizerStep.stop e unset))
    ]
    finalizer_next Finalizer.stopping e h = elim (runner_next s.runner refl (ground arith)) [
      | inl moves ↦ inl moves
      | inr (code, ended) ↦ inl (_, Work.finalizer (FinalizerStep.stopped code e ended))
    ]
    finalizer_next Finalizer.signalling e h = inl (_, Work.finalizer (FinalizerStep.finish e))
    finalizer_next Finalizer.done e h = inr refl

    main_next : (m : Main) → s.main ≡ m → CanMove k s ⊎ ((ret : ℕ) × (return_value m ≡ some ret))
    main_next Main.spawning_finalizer e = inl (_, Work.main (MainStep.finalizer_runs e))
    main_next Main.failed e = inr (_, refl)
    main_next Main.spawning_runner e = inl (_, Work.main (MainStep.runner_made 1 e (omega arith)))
    main_next Main.cancelling e = inl (_, Work.main (MainStep.cancel e))
    main_next Main.closing e = inl (_, Work.main (MainStep.close e))
    main_next Main.refused e = inr (_, refl)
    main_next Main.waking e = inl (_, Work.main (MainStep.wake e))
    main_next Main.waiting_start e = elim (Bool-cases (ltb 0 s.task.exec_start)) [
      | inl up ↦ inl (_, Work.main (MainStep.start e (ground arith)))
      | inr down ↦ inl (_, Work.runner (RunnerStep.begin (ground arith)))
    ]
    main_next Main.releasing e = inl (_, Work.main (MainStep.release e))
    main_next (Main.waiting_end made_nx) e = elim (Bool-cases (ltb 0 s.task.finalizer_end)) [
      | inl up ↦ inl (_, Work.main (MainStep.end made_nx e (ground arith)))
      | inr down ↦ elim (finalizer_next s.finalizer refl (ground arith)) [
        | inl moves ↦ inl moves
        | inr through ↦ absurd (ground arith)
      ]
    ]
    main_next Main.killing e = inl (_, Work.main (MainStep.kill e))
    main_next (Main.reporting made_nx r) e = inl (_, Work.main (MainStep.report made_nx r e))
    main_next (Main.returned ret) e = inr (ret, refl)

    -- The threads that are still there when the handler has returned can move, or are over.
    rest_next : is_some (return_value s.main) ≡ true → CanMove k s ⊎ IsOver s
    rest_next e = elim (Bool-cases (gave_release s.main == 0)) [
      | inl failed ↦ inr (ground arith)
      | inr told ↦ elim (finalizer_next s.finalizer refl (ground arith)) [
        | inl moves ↦ inl moves
        | inr through ↦ elim (Bool-cases (runner_phase s.runner == 2)) [
          | inl woken ↦ elim (runner_next s.runner refl (ground arith)) [
            | inl moves ↦ inl moves
            | inr (code, ended) ↦ inr (ground arith)
          ]
          | inr unmade ↦ inr (ground arith)
        ]
      ]
    ]

    pub work_next : CanMove k s ⊎ IsOver s
    work_next = elim (main_next s.main refl) [
      | inl moves ↦ inl moves
      | inr (ret, e) ↦ rest_next (ground arith)
    ]
