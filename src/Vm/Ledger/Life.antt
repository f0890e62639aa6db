-- ===== src/Vm/Ledger/Life.antt =====
-- No allocation is lost or freed twice between `init_execution_engine` and
-- `destroy_execution_engine` of vm.c.
use kernel_wasm.Base.{
  ℕ, ◌≡◌, refl, ◌≢◌, ◌⊎◌, inl, inr, false, arith, ◌==◌, Bool-cases, ◌/◌, ◌^◌, ◌≤◌,
}
use kernel_wasm.Kapi.Info.{ImportInfo}
use kernel_wasm.Kapi.Registry.{Registry, get_module_resolver}
use kernel_wasm.Kapi.Resolver.{ModuleResolver}
use kernel_wasm.Kernel.{Kernel, Kind, virt, page, area, heap, World, Event, emit}
use kernel_wasm.Kernel.Ledger.{hit-zero, hit_kind, Gained}
use kernel_wasm.Vm.Engine.{Engine, LoadCodeRequest, zeroed, stack_guard_size}
use kernel_wasm.Vm.Init.{init_body}
use kernel_wasm.Vm.Ledger.Cleanup.{cleanup-log}
use kernel_wasm.Vm.Ledger.Keeps.{Keeps, Keeps-then}
use kernel_wasm.Vm.Ledger.Owned.{owned, Accounts, Unset₁}
use kernel_wasm.Vm.Ledger.Stages.{
  code-Keeps, globals-Keeps, imports-Keeps, sigindices-Keeps, table-Keeps, stack-Keeps,
}
use kernel_wasm.Vm.Ledger.Stages.Memory.{memory-Keeps}
use kernel_wasm.Vm.Load.{
  Loaded, conclude, is_refused, init_execution_engine, destroy_execution_engine,
}
use kernel_wasm.Vm.Setup.{Setup, Flow, go, stop}

module _ (os : Kernel) (p : ℕ) (used : p ≢ 0) where
  pub body-Keeps :
      (request : LoadCodeRequest) (info : ImportInfo ℕ) (w : World)
      → Keeps p w Unset₁ (λ ee. Unit {0}) (init_body os request info)
  unfolding init_body
  body-Keeps request info w = Keeps-then p w (code-Keeps os request p used w) (
      Keeps-then p w (memory-Keeps os request p used w) (
        Keeps-then p w (globals-Keeps os request p used w) (
          Keeps-then p w (imports-Keeps os request p used w info) (
            Keeps-then p w (sigindices-Keeps os request p used w) (
              Keeps-then p w (table-Keeps os request p used w)
                (stack-Keeps os request p used w))))))

  get_module_resolver-Gained :
      (g : Registry) (kind : Kind) (w : World)
      → Gained kind p w
          (get_module_resolver os g w).1
          (hit_kind kind p heap (get_module_resolver os g w).0.1.resolvers)
  unfolding get_module_resolver
  get_module_resolver-Gained g heap w = ground (arith, hit-zero p)
  get_module_resolver-Gained g kind w = ground (arith, hit-zero p)

  -- How an attempt to load ends, in the account since `w`.
  abbrev IsSettled : Kind → World → Loaded → Type 0
  IsSettled kind w l =
      ((l.err ≡ 0) × Accounts kind p w l.world l.ee) ⊎ ((l.err ≢ 0) × Gained kind p w l.world 0)

  conclude-negative :
      (r : Flow (Unit {0}) × Setup)
      → ((err : ℕ) → r.0 ≡ stop err → 2 ^ 31 ≤ err)
      → ((conclude os r).err ≡ 0) ⊎ (2 ^ 31 ≤ (conclude os r).err)
  unfolding conclude
  conclude-negative (go t, s) f = inl refl
  conclude-negative (stop err, s) f = inr (f err refl)

  conclude-IsSettled :
      (kind : Kind) (w : World) (r : Flow (Unit {0}) × Setup)
      → ((err : ℕ) → r.0 ≡ stop err → 2 ^ 31 ≤ err)
      → Accounts kind p w r.1.world r.1.ee
      → IsSettled kind w (conclude os r)
  unfolding conclude
  conclude-IsSettled kind w (go t, s) f h = inl (refl, h)
  conclude-IsSettled kind w (stop err, s) f h = inr (
    omega (arith, f err refl),
    omega (arith, cleanup-log os p used s.ee kind s.pages_allocated_without_mapping s.world),
  )

  get_module_resolver-null :
      (g : Registry) (w : World)
      → (get_module_resolver os g w).0.0 ≢ 0
      → (get_module_resolver os g w).0.1.resolvers ≡ 0
  unfolding get_module_resolver
  get_module_resolver-null g w h = ground arith

  zeroed-owned :
      (kind : Kind) (r : ModuleResolver)
      → owned kind p (zeroed r) ≡ hit_kind kind p heap r.resolvers
  zeroed-owned virt r = omega (arith, hit-zero p used)
  zeroed-owned page r = refl
  zeroed-owned area r = hit-zero p used
  zeroed-owned heap r = refl

  hit_kind-zero : (kind kind' : Kind) → hit_kind kind p kind' 0 ≡ 0
  hit_kind-zero kind kind' = ground (arith, hit-zero p used)

  init-IsSettled :
      (g : Registry) (info : ImportInfo ℕ) (request : LoadCodeRequest) (ee : Engine) (kind : Kind)
      (w : World)
      → IsSettled kind w (init_execution_engine os g info request ee w)
  unfolding init_execution_engine
  init-IsSettled g info request ee kind w = elim (Bool-cases (is_refused request)) [
    | inl bad ↦ rw bad (inr (omega arith, omega arith))
    | inr good ↦ rw good (elim (Bool-cases (r.0.0 == 0)) [
      | inl fine ↦ rw fine (
          let k = body-Keeps request info w in
          conclude-IsSettled kind w (init_body os request info start) (k.fails start) (
            k.account kind start (omega arith)
              (omega (arith, zeroed-owned kind r.0.1, get_module_resolver-Gained g kind w))))
      | inr failed ↦
          let nonzero : r.0.0 ≢ 0 = ground arith in
          let null : r.0.1.resolvers ≡ 0 = get_module_resolver-null g w nonzero in
          let gained : Gained kind p w r.1 0 =
            rw hit_kind-zero at (rw null at (get_module_resolver-Gained g kind w)) in
          rw failed (inr (nonzero, gained))
    ])
  ]
    where
      r : (ℕ × ModuleResolver) × World
      r = get_module_resolver os g w

      start : Setup
      start = record { ee = zeroed r.0.1; world = r.1; pages_allocated_without_mapping = false }

-- `init_execution_engine` keeps account of every allocation: if it returns 0, each address of each
-- allocator was since the start allocated just as much oftener than freed as the engine points to it,
-- and if it fails, as often as it was freed.
pub init_execution_engine_accounts :
    (os : Kernel) (g : Registry) (info : ImportInfo ℕ) (request : LoadCodeRequest) (ee : Engine)
    (w : World) (kind : Kind) (p : ℕ)
    → p ≢ 0
    → (((init_execution_engine os g info request ee w).err ≡ 0)
        × Accounts kind p w
            (init_execution_engine os g info request ee w).world
            (init_execution_engine os g info request ee w).ee)
      ⊎ (((init_execution_engine os g info request ee w).err ≢ 0)
          × Gained kind p w (init_execution_engine os g info request ee w).world 0)
init_execution_engine_accounts os g info request ee w kind p used =
    init-IsSettled os p used g info request ee kind w

-- `destroy_execution_engine` frees all that `init_execution_engine` allocated: after a load that
-- returns 0 and the destruction of its engine, each address of each allocator was since the start
-- allocated as often as freed.
pub destroy-init :
    (os : Kernel) (g : Registry) (info : ImportInfo ℕ) (request : LoadCodeRequest) (ee : Engine)
    (w : World) (kind : Kind) (p : ℕ)
    → p ≢ 0
    → (init_execution_engine os g info request ee w).err ≡ 0
    → Gained kind p w
        (destroy_execution_engine os
          (init_execution_engine os g info request ee w).ee
          (init_execution_engine os g info request ee w).world)
        0
unfolding destroy_execution_engine
destroy-init os g info request ee w kind p used e =
    let l = init_execution_engine os g info request ee w in
    ground (
      arith,
      init-IsSettled os p used g info request ee kind w,
      cleanup-log os p used l.ee kind false
          (emit (Event.set_rw l.ee.stack_begin (stack_guard_size / 4096)) l.world),
    )

-- A failure of `init_execution_engine` is a negative `int`, if one of `get_module_resolver` is.
pub init-negative :
    (os : Kernel) (g : Registry) (info : ImportInfo ℕ) (request : LoadCodeRequest) (ee : Engine)
    (w : World)
    → ((get_module_resolver os g w).0.0 ≢ 0 → 2 ^ 31 ≤ (get_module_resolver os g w).0.0)
    → ((init_execution_engine os g info request ee w).err ≡ 0)
      ⊎ (2 ^ 31 ≤ (init_execution_engine os g info request ee w).err)
unfolding init_execution_engine
init-negative os g info request ee w negative =
    let r = get_module_resolver os g w in
    let start : Setup = record {
      ee = zeroed r.0.1;
      world = r.1;
      pages_allocated_without_mapping = false;
    } in
    let k = body-Keeps os 1 (omega arith) request info w in
    ground (
      arith,
      conclude-negative os 1 (omega arith) (init_body os request info start) (k.fails start),
    )
