-- ===== src/Vm/Ledger/Stages.antt =====
-- Each stage of `init_execution_engine` keeps account of what it allocates, also where it fails.
pub mod Memory
use kernel_wasm.Base.{
  ℕ, zero, suc, ◌*◌, ◌^◌, ◌≤◌, ◌≡◌, refl, ◌≢◌, Option, none, some, ◌∷◌, arith, update,
}
use kernel_wasm.Kernel.{Kernel, Kind, virt, World, Event, einval}
use kernel_wasm.Kernel.Ledger.{hit-zero}
use kernel_wasm.Kapi.Info.{ImportInfo}
use kernel_wasm.Kapi.Resolver.{ModuleResolver}
use kernel_wasm.Vm.Engine.{LoadCodeRequest, Anyfunc}
use kernel_wasm.Vm.Ledger.Keeps.{Keeps}
use kernel_wasm.Vm.Ledger.Owned.{Accounts, Unset₁, Unset₂, Unset₃, Unset₄, Unset₅, Unset₆, Unset₇}
use kernel_wasm.Vm.Init.{
  import_loop, table_loop, init_code, init_globals, init_imports, init_sigindices, init_table,
  init_stack,
}
use kernel_wasm.Vm.Setup.{Setup, stop}

-- The errno of a loop, if any, makes a negative `int`.
abbrev IsErrno : Option ℕ → Type 0
IsErrno none = Unit
IsErrno (some errno) = errno ≤ einval

IsErrno-of : (r : Option ℕ) → ((errno : ℕ) → r ≡ some errno → errno ≤ einval) → IsErrno r
IsErrno-of none f = tt
IsErrno-of (some errno) f = f errno refl

module _ (os : Kernel) (request : LoadCodeRequest) (p : ℕ) (used : p ≢ 0) (w : World) where
  code_account :
      (kind : Kind) (s : Setup)
      → Unset₁ s.ee
      → Accounts kind p w s.world s.ee
      → Accounts kind p w (init_code os request s).1.world (init_code os request s).1.ee
  unfolding init_code
  code_account virt s u h = ground (arith, hit-zero p)
  code_account _ s u h = ground (arith, hit-zero p)

  pub code-Keeps : Keeps p w Unset₁ Unset₂ (init_code os request)
  unfolding init_code
  code-Keeps = record {
    account = code_account;
    unset = λ s u e. ground arith;
    fails = λ s err e. ground arith;
  }

  globals_account :
      (kind : Kind) (s : Setup)
      → Unset₃ s.ee
      → Accounts kind p w s.world s.ee
      → Accounts kind p w (init_globals os request s).1.world (init_globals os request s).1.ee
  unfolding init_globals
  globals_account virt s u h = ground (arith, hit-zero p)
  globals_account _ s u h = ground (arith, hit-zero p)

  pub globals-Keeps : Keeps p w Unset₃ Unset₄ (init_globals os request)
  unfolding init_globals
  globals-Keeps = record {
    account = globals_account;
    unset = λ s u e. ground arith;
    fails = λ s err e. ground arith;
  }

  imports_account :
      (info : ImportInfo ℕ) (kind : Kind) (s : Setup)
      → Unset₄ s.ee
      → Accounts kind p w s.world s.ee
      → Accounts kind p w
          (init_imports os request info s).1.world
          (init_imports os request info s).1.ee
  unfolding init_imports
  imports_account info virt s u h = ground (arith, hit-zero p)
  imports_account info _ s u h = ground (arith, hit-zero p)

  import_loop-error :
      (r : ModuleResolver) (v : World) (info : ImportInfo ℕ) (left i : ℕ) (funcs : ℕ → Option ℕ)
      (errno : ℕ)
      → (import_loop os request r v info left i funcs).0 ≡ some errno
      → errno ≤ einval
  unfolding import_loop
  import_loop-error r v info zero i funcs errno e = cc
  import_loop-error r v info (suc left) i funcs errno e =
      grind
        (arith, λ (f : ℕ). import_loop-error r v info left (suc i) (update funcs i (some f)) errno)

  imports_fails :
      (info : ImportInfo ℕ) (s : Setup) (err : ℕ)
      → (init_imports os request info s).0 ≡ stop err
      → 2 ^ 31 ≤ err
  unfolding init_imports
  imports_fails info s err e =
      let p' = os.allocate s.world virt (16 * request.imported_func_count) in
      ground (
        arith,
        IsErrno-of _ (
            import_loop-error s.ee.resolver
              (record s.world { log = Event.alloc virt p' ∷ s.world.log }) info
              request.imported_func_count 0 s.ee.imported_func),
      )

  pub imports-Keeps : (info : ImportInfo ℕ) → Keeps p w Unset₄ Unset₅ (init_imports os request info)
  unfolding init_imports
  imports-Keeps info = record {
    account = imports_account info;
    unset = λ s u e. ground arith;
    fails = imports_fails info;
  }

  sigindices_account :
      (kind : Kind) (s : Setup)
      → Unset₅ s.ee
      → Accounts kind p w s.world s.ee
      → Accounts kind p w (init_sigindices os request s).1.world (init_sigindices os request s).1.ee
  unfolding init_sigindices
  sigindices_account virt s u h = ground (arith, hit-zero p)
  sigindices_account _ s u h = ground (arith, hit-zero p)

  pub sigindices-Keeps : Keeps p w Unset₅ Unset₆ (init_sigindices os request)
  unfolding init_sigindices
  sigindices-Keeps = record {
    account = sigindices_account;
    unset = λ s u e. ground arith;
    fails = λ s err e. ground arith;
  }

  table_account :
      (kind : Kind) (s : Setup)
      → Unset₆ s.ee
      → Accounts kind p w s.world s.ee
      → Accounts kind p w (init_table os request s).1.world (init_table os request s).1.ee
  unfolding init_table
  table_account virt s u h = ground (arith, hit-zero p)
  table_account _ s u h = ground (arith, hit-zero p)

  table_loop-error :
      (code : ℕ) (v : World) (left i : ℕ) (table : ℕ → Anyfunc) (errno : ℕ)
      → (table_loop os request code v left i table).0 ≡ some errno
      → errno ≤ einval
  unfolding table_loop
  table_loop-error code v zero i table errno e = cc
  table_loop-error code v (suc left) i table errno e =
      grind (arith, λ (f : Anyfunc). table_loop-error code v left (suc i) (update table i f) errno)

  table_fails : (s : Setup) (err : ℕ) → (init_table os request s).0 ≡ stop err → 2 ^ 31 ≤ err
  unfolding init_table
  table_fails s err e =
      let p' = os.allocate s.world virt (24 * request.table_count) in
      ground (
        arith,
        IsErrno-of _ (
            table_loop-error s.ee.code (record s.world { log = Event.alloc virt p' ∷ s.world.log })
              request.table_count 0 s.ee.table),
      )

  pub table-Keeps : Keeps p w Unset₆ Unset₇ (init_table os request)
  unfolding init_table
  table-Keeps = record {
    account = table_account;
    unset = λ s u e. ground arith;
    fails = table_fails;
  }

  stack_account :
      (kind : Kind) (s : Setup)
      → Unset₇ s.ee
      → Accounts kind p w s.world s.ee
      → Accounts kind p w (init_stack os request s).1.world (init_stack os request s).1.ee
  unfolding init_stack
  stack_account virt s u h = ground (arith, hit-zero p)
  stack_account _ s u h = ground (arith, hit-zero p)

  pub stack-Keeps : Keeps p w Unset₇ (λ ee. Unit {0}) (init_stack os request)
  unfolding init_stack
  stack-Keeps = record {
    account = stack_account;
    unset = λ s u e. tt;
    fails = λ s err e. ground arith;
  }
