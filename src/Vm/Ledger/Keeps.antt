-- ===== src/Vm/Ledger/Keeps.antt =====
-- Parts of the body of `init_execution_engine` that keep account, one after the other.
use kernel_wasm.Base.{ℕ, ◌^◌, ◌≤◌, ◌≡◌, refl}
use kernel_wasm.Kernel.{Kind, World}
use kernel_wasm.Vm.Engine.{Engine}
use kernel_wasm.Vm.Ledger.Owned.{Accounts}
use kernel_wasm.Vm.Setup.{Setup, Stage, Flow, go, stop, and_then, ◌>>◌}

module _ (p : ℕ) (w : World) where
  -- Where `U` holds of the engine at the start, the stage keeps account, and `V` holds if it ends
  -- without error.
  pub record Keeps (U V : Engine → Type 0) (m : Stage) : Type 0 where
    pub account :
        (kind : Kind) (s : Setup)
        → U s.ee
        → Accounts kind p w s.world s.ee
        → Accounts kind p w (m s).1.world (m s).1.ee
    pub unset : (s : Setup) → U s.ee → (m s).0 ≡ go tt → V (m s).1.ee
    -- The error is a negative `int`.
    pub fails : (s : Setup) (err : ℕ) → (m s).0 ≡ stop err → 2 ^ 31 ≤ err

  then_account :
      {V W : Engine → Type 0} {n : Stage} (kind : Kind) (r : Flow (Unit {0}) × Setup)
      → Keeps V W n
      → (r.0 ≡ go tt → V r.1.ee)
      → Accounts kind p w r.1.world r.1.ee
      → Accounts kind p w (and_then r (λ _. n)).1.world (and_then r (λ _. n)).1.ee
  then_account kind (go tt', s) k v h = k.account kind s (v refl) h
  then_account kind (stop err, s) k v h = h

  then_unset :
      {V W : Engine → Type 0} {n : Stage} (r : Flow (Unit {0}) × Setup)
      → Keeps V W n
      → (r.0 ≡ go tt → V r.1.ee)
      → (and_then r (λ _. n)).0 ≡ go tt
      → W (and_then r (λ _. n)).1.ee
  then_unset (go tt', s) k v e = k.unset s (v refl) e
  then_unset (stop err, s) k v e = cc

  then_fails :
      {V W : Engine → Type 0} {n : Stage} (r : Flow (Unit {0}) × Setup)
      → Keeps V W n
      → ((err : ℕ) → r.0 ≡ stop err → 2 ^ 31 ≤ err)
      → (err : ℕ) → (and_then r (λ _. n)).0 ≡ stop err
      → 2 ^ 31 ≤ err
  then_fails (go tt', s) k f err e = k.fails s err e
  then_fails (stop err', s) k f err e = f err e

  pub Keeps-then :
      {U V W : Engine → Type 0} {m n : Stage} → Keeps U V m → Keeps V W n → Keeps U W (m >> n)
  Keeps-then {m} k l = record {
    account = λ kind s u h. then_account kind (m s) l (k.unset s u) (k.account kind s u h);
    unset = λ s u e. then_unset (m s) l (k.unset s u) e;
    fails = λ s err e. then_fails (m s) l (k.fails s) err e;
  }
