-- ===== src/Vm/Triple.antt =====
-- vm.c: what the stages of `init_execution_engine` leave when they do not jump to `fail`, put together.
use kernel_wasm.Base.{ℕ, ◌^◌, ◌≤◌, ◌≡◌, refl, inl, inr, false, arith, ◌==◌, Bool-cases}
use kernel_wasm.Kapi.Info.{ImportInfo}
use kernel_wasm.Kapi.Registry.{Registry, get_module_resolver}
use kernel_wasm.Kernel.{Kernel, World}
use kernel_wasm.Vm.Engine.{Engine, LoadCodeRequest, zeroed}
use kernel_wasm.Vm.Init.{init_body}
use kernel_wasm.Vm.Ledger.Life.{body-Keeps}
use kernel_wasm.Vm.Load.{is_refused, conclude, init_execution_engine}
use kernel_wasm.Vm.Setup.{Setup, Stage, Flow, go, stop, and_then, ◌>>◌}

-- From an engine with `R`, the stage fails or leaves one with `P`.
pub record Triple (R : Engine → Type 0) (m : Stage) (P : Engine → Type 0) : Type 0 where
  pub leaves : (s : Setup) → R s.ee → (m s).0 ≡ go tt → P (m s).1.ee

-- Of an engine about which nothing is known.
abbrev pub AnyEngine : Engine → Type 0
AnyEngine ee = Unit {0}

pub any : (m : Stage) → Triple AnyEngine m AnyEngine
any m = record { leaves = λ s r h. tt }

module _ {Q P : Engine → Type 0} where
  then_leaves :
      {n : Stage} (r : Flow (Unit {0}) × Setup)
      → Triple Q n P
      → (r.0 ≡ go tt → Q r.1.ee)
      → (and_then r (λ _. n)).0 ≡ go tt
      → P (and_then r (λ _. n)).1.ee
  then_leaves (go t, s) k q h = k.leaves s (q refl) h
  then_leaves (stop err, s) k q h = absurd (ground arith)

  pub Triple-then :
      {R : Engine → Type 0} {m n : Stage} → Triple R m Q → Triple Q n P → Triple R (m >> n) P
  Triple-then {m = m} k l = record { leaves = λ s r h. then_leaves (m s) l (k.leaves s r) h }

module _ (os : Kernel) (request : LoadCodeRequest) (P : Engine → Type 0) where
  conclude_leaves :
      (r : Flow (Unit {0}) × Setup)
      → ((err : ℕ) → r.0 ≡ stop err → 2 ^ 31 ≤ err)
      → (r.0 ≡ go tt → P r.1.ee)
      → (conclude os r).err ≡ 0
      → P (conclude os r).ee
  unfolding conclude
  conclude_leaves (go t, s) negative p h = p refl
  conclude_leaves (stop err, s) negative p h = absurd (omega (arith, negative err refl))

  -- A load that returns 0 leaves what its body leaves of an engine that is all 0 but for the resolver.
  pub load_leaves :
      (g : Registry) (info : ImportInfo ℕ) (ee : Engine) (w : World)
      → (is_refused request ≡ false
          → Triple (λ e. e ≡ zeroed (get_module_resolver os g w).0.1) (init_body os request info) P)
      → (init_execution_engine os g info request ee w).err ≡ 0
      → (is_refused request ≡ false)
        × ((get_module_resolver os g w).0.0 ≡ 0)
        × P (init_execution_engine os g info request ee w).ee
  unfolding init_execution_engine
  load_leaves g info ee w triple h =
      let r = get_module_resolver os g w in
      let start : Setup = record {
        ee = zeroed r.0.1;
        world = r.1;
        pages_allocated_without_mapping = false;
      } in
      let k = body-Keeps os 1 (omega arith) request info w in
      elim (Bool-cases (is_refused request)) [
        | inl bad ↦ absurd (ground (arith, rw (bad, init_execution_engine) at h))
        | inr good ↦
            (let h₁ = rw (good, init_execution_engine) at h in
              rw good (elim (Bool-cases (r.0.0 == 0)) [
                | inl fine ↦ (
                  refl,
                  ground arith,
                  rw fine (
                      conclude_leaves (init_body os request info start) (k.fails start)
                        ((triple good).leaves start refl) (rw fine at h₁)),
                )
                | inr failed ↦ absurd (ground (arith, rw failed at h₁))
              ]))
      ]
