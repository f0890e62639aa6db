-- ===== src/Uapi/Run/Threads/Invariant.antt =====
-- What holds in every state that the threads of `handle_wasm_run_code` reach.
use kernel_wasm.Base.{ℕ}
use kernel_wasm.Uapi.Run.State.{System}
use kernel_wasm.Uapi.Run.Threads.{Work, Step, Reach, here, next}
use kernel_wasm.Uapi.Run.Threads.Semaphores.{
  Tokens, prepared-Tokens, MainStep-Tokens, FinalizerStep-Tokens, RunnerStep-Tokens,
  Interrupt-Tokens,
}
use kernel_wasm.Uapi.Run.Threads.Holdings.{
  Resources, prepared-Resources, MainStep-Resources, FinalizerStep-Resources, RunnerStep-Resources,
  Interrupt-Resources,
}
use kernel_wasm.Uapi.Run.Threads.Outcomes.{
  Results, prepared-Results, MainStep-Results, FinalizerStep-Results, RunnerStep-Results,
  Interrupt-Results,
}

pub record Inv (n : ℕ) (s : System) : Type 0 where
  pub tokens : Tokens s
  pub resources : Resources n s
  pub results : Results s

Work-Inv : {k n : ℕ} {s t : System} → Work k s t → Inv n s → Inv n t
Work-Inv (Work.main st) v = record {
  tokens = MainStep-Tokens v.tokens st;
  resources = MainStep-Resources v.tokens v.resources st;
  results = MainStep-Results v.tokens v.results st;
}
Work-Inv (Work.finalizer st) v = record {
  tokens = FinalizerStep-Tokens v.tokens st;
  resources = FinalizerStep-Resources v.tokens v.resources st;
  results = FinalizerStep-Results v.tokens v.results st;
}
Work-Inv (Work.runner st) v = record {
  tokens = RunnerStep-Tokens v.tokens st;
  resources = RunnerStep-Resources v.tokens v.resources st;
  results = RunnerStep-Results v.tokens v.results st;
}

-- Every step keeps the invariant.
pub Step-Inv : {k n : ℕ} {s t : System} → Step k s t → Inv n s → Inv n t
Step-Inv (Step.work w) v = Work-Inv w v
Step-Inv (Step.signal st) v = record {
  tokens = Interrupt-Tokens v.tokens st;
  resources = Interrupt-Resources v.tokens v.resources st;
  results = Interrupt-Results v.tokens v.results st;
}

pub Reach-Inv : {k n : ℕ} {s : System} → Reach k n s → Inv n s
Reach-Inv {k} {n} here = record {
  tokens = prepared-Tokens n;
  resources = prepared-Resources n;
  results = prepared-Results n;
}
Reach-Inv (next r st) = Step-Inv st (Reach-Inv r)
