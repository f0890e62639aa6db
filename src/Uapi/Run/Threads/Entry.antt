-- ===== src/Uapi/Run/Threads/Entry.antt =====
-- How the runner's thread is readied for compiled code.
use kernel_wasm.Base.{◌≡◌, ◌⊎◌, Bool, false, List, [], ◌∷◌}
use kernel_wasm.Uapi.Run.State.{Call, Runner, System}

-- What the thread has called when `param_count` is tested, and when compiled code is entered, the last
-- call first.
abbrev set_up : List Call
set_up =
    Call.preempt_enable ∷ Call.preempt_notifier_register ∷ Call.preempt_notifier_init
    ∷ Call.kernel_fpu_begin ∷ []

abbrev pub readied : List Call
readied = Call.allow_sigkill ∷ set_up

-- What it has called, by where it stands.
abbrev Made : Runner → Bool → List Call → Type 0
Made Runner.entering called calls = (called ≡ false) × (calls ≡ set_up)
Made Runner.calling called calls = calls ≡ readied
Made Runner.leaving called calls = (called ≡ false) ⊎ (calls ≡ readied)
Made (Runner.exited _) called calls = (called ≡ false) ⊎ (calls ≡ readied)
Made _ called calls = (called ≡ false) × (calls ≡ [])

record Ready (s : System) : Type 0 where
  made : Made s.runner s.called s.calls
