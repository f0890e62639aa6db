-- ===== src/Uapi/Lifetime.antt =====
-- uapi.c: what a load and `wd_release` do to the account of a session.
use kernel_wasm.Base.{ℕ, ◌+◌, ◌/◌, ◌≡◌, ◌≢◌, inl, inr, false, Option-cases, arith, if◌then◌else◌}
use kernel_wasm.Kapi.Info.{ImportInfo}
use kernel_wasm.Kapi.Negative.{AreNegative, get_module_resolver-negative}
use kernel_wasm.Kapi.Registry.{Registry}
use kernel_wasm.Kernel.{Kernel, Kind, heap, World, Event, emit}
use kernel_wasm.Kernel.Ledger.{hit_kind, Gained}
use kernel_wasm.Uapi.Session.{Session, Requests, attempt, wd_release, handle_wasm_load_code}
use kernel_wasm.Vm.Engine.{LoadCodeRequest, stack_guard_size}
use kernel_wasm.Vm.Ledger.Cleanup.{cleanup-log}
use kernel_wasm.Vm.Ledger.Life.{init_execution_engine_accounts, init-negative}
use kernel_wasm.Vm.Ledger.Owned.{owned}
use kernel_wasm.Vm.Load.{destroy_execution_engine}

-- The allocations of a session: its own, and its engine's once it is ready.
abbrev pub held : Kind → ℕ → Session → ℕ
held kind p s = hit_kind kind p heap s.address + (if s.ready then owned kind p s.ee else 0)

module _ (os : Kernel) (kind : Kind) (p : ℕ) (used : p ≢ 0) (w₀ : World) where
  load_ends :
      (g : Registry) (info : ImportInfo ℕ) (req : LoadCodeRequest) (s : Session) (w : World)
      (lost : ℕ)
      → AreNegative g.resolvers
      → s.ready ≡ false
      → Gained kind p w₀ w (held kind p s + lost)
      → Gained kind p w₀
          (attempt os g info req s w).world
          (held kind p (attempt os g info req s w).session + lost)
  unfolding attempt
  load_ends g info req s w lost negative idle h = ground (
    arith,
    init_execution_engine_accounts os g info req s.ee w kind p used,
    init-negative os g info req s.ee w (get_module_resolver-negative os g w negative),
  )

  -- A load keeps the account of the session, with what was lost before.
  pub handle_wasm_load_code-Gained :
      (users : Requests) (g : Registry) (info : ImportInfo ℕ) (arg : ℕ) (s : Session) (w : World)
      (lost : ℕ)
      → AreNegative g.resolvers
      → Gained kind p w₀ w (held kind p s + lost)
      → Gained kind p w₀
          (handle_wasm_load_code os users g info arg s w).world
          (held kind p (handle_wasm_load_code os users g info arg s w).session + lost)
  unfolding handle_wasm_load_code
  handle_wasm_load_code-Gained users g info arg s w lost negative h =
      elim (Option-cases (users.load_code w arg)) [
        | inl fault ↦ ground arith
        | inr (req, e) ↦ ground (arith, load_ends g info req s w lost negative)
      ]

  -- `wd_release` leaves only what was lost.
  pub wd_release-Gained :
      (s : Session) (w : World) (lost : ℕ)
      → Gained kind p w₀ w (held kind p s + lost)
      → Gained kind p w₀ (wd_release os s w) lost
  unfolding wd_release destroy_execution_engine
  wd_release-Gained s w lost h = ground (
    arith,
    cleanup-log os p used s.ee kind false
        (emit (Event.set_rw s.ee.stack_begin (stack_guard_size / 4096)) w),
  )
