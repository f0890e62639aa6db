-- ===== src/Execution/Keeps.antt =====
-- What compiled code cannot change of its engine.
use kernel_wasm.Base.{ℕ, ◌≤◌, ◌≡◌, refl, inl, inr, arith, ◌==◌, Bool-cases, List}
use kernel_wasm.Execution.{
  Environment, Running, ended, Call, to_wasi, to_net, Act, store, call, grow, Comes, here, next,
}
use kernel_wasm.Kernel.{Kernel, World}
use kernel_wasm.Uapi.Ioctl.Growth.{wasm_memory_grow-IsBacked, wasm_memory_grow-absent}
use kernel_wasm.Vm.Engine.{Engine, LoadCodeRequest}
use kernel_wasm.Vm.Grow.{wasm_memory_grow}
use kernel_wasm.Vm.Grow.Frame.{SameCode, wasm_memory_grow-same}
use kernel_wasm.Vm.Grow.Size.{wasm_memory_grow_lem}
use kernel_wasm.Vm.Grow.Stored.{wasm_memory_grow-ArraysFit}
use kernel_wasm.Vm.Sized.{IsBacked}
use kernel_wasm.Vm.Written.Arrays.{ArraysFit}
use kernel_wasm.Wasi.Table.{Outcome, returned, exited}
use kernel_wasm.Wasi.Host as WasiHost

-- The engine is one with the code of `ee` whose pages back at least the memory of `ee`.
pub record Continues (ee ee' : Engine) : Type 0 where
  pub same : SameCode ee ee'
  pub backed : IsBacked ee'
  pub larger : ee.ctx.memory_bound ≤ ee'.ctx.memory_bound

wasm_memory_grow-Continues :
    (os : Kernel) (pages : ℕ) (ee : Engine) (w : World)
    → IsBacked ee
    → Continues ee (wasm_memory_grow os pages ee w).ee
wasm_memory_grow-Continues os pages ee w backed =
    let still = wasm_memory_grow-IsBacked os pages ee w backed in
    let same = (wasm_memory_grow-same os pages ee w).0 in
    elim (Bool-cases (ee.ctx.memory_base == 0)) [
      | inl absent ↦ record {
        same = same;
        backed = still;
        larger = rw (wasm_memory_grow-absent os pages ee w (ground arith)).0 (omega arith);
      }
      | inr present ↦ record {
        same = same;
        backed = still;
        larger =
            let grown = wasm_memory_grow_lem os pages ee w backed.sized (ground arith) in
            ground arith;
      }
    ]

pub Continues-refl : (ee : Engine) → IsBacked ee → Continues ee ee
Continues-refl ee backed = record {
  same = (refl, refl, refl, refl, refl);
  backed = backed;
  larger = omega arith;
}

pub Continues-trans : {a b c : Engine} → Continues a b → Continues b c → Continues a c
Continues-trans k l =
    let same = k.same in
    let same' = l.same in
    let larger = k.larger in
    let larger' = l.larger in
    record { same = (cc, cc, cc, cc, cc); backed = l.backed; larger = omega arith }

ended-ee : (ee : Engine) (r : Outcome × WasiHost.World) → (ended ee r).ee ≡ ee
ended-ee ee (returned code, w) = refl
ended-ee ee (exited code, w) = refl

module _ (env : Environment) where
  pub Call-ee : {s s' : Running} {i : ℕ} {args : List ℕ} → Call env s i args s' → s'.ee ≡ s.ee
  Call-ee {s = s} (to_wasi fn m w linked entered same) = ended-ee s.ee (m w)
  Call-ee (to_net fn m w linked entered same) = refl

  Act-Continues : {s s' : Running} → IsBacked s.ee → Act env s s' → Continues s.ee s'.ee
  Act-Continues {s = s} backed (store ram spares) = Continues-refl s.ee backed
  Act-Continues {s = s} backed (call i args c) = rw (Call-ee c) (Continues-refl s.ee backed)
  Act-Continues {s = s} backed (grow pages w same) =
      wasm_memory_grow-Continues env.os pages s.ee w backed

  Act-ArraysFit :
      {s s' : Running} (request : LoadCodeRequest) (j : ℕ)
      → IsBacked s.ee
      → ArraysFit env.os request j s.ee
      → Act env s s'
      → ArraysFit env.os request j s'.ee
  Act-ArraysFit request j backed fits (store ram spares) = fits
  Act-ArraysFit request j backed fits (call i args c) = rw (Call-ee c) fits
  Act-ArraysFit {s = s} request j backed fits (grow pages w same) =
      wasm_memory_grow-ArraysFit env.os request j pages s.ee w backed fits

  -- Whatever a thread of an engine with a backed memory comes to, the memory starts where it did, the
  -- imports are linked to the same functions, the stack and the globals lie where they did, and the
  -- memory is backed by its pages, within `STATIC_MEMORY_AVAILABLE` and no smaller than at the start.
  pub Comes-Continues :
      {start s : Running} → IsBacked start.ee → Comes env start s → Continues start.ee s.ee
  Comes-Continues {start = start} backed here = Continues-refl start.ee backed
  Comes-Continues backed (next before alive step) =
      let k = Comes-Continues backed before in Continues-trans k (Act-Continues k.backed step)

  -- A growth is all that touches an array of the engine.
  pub Comes-ArraysFit :
      {start s : Running} (request : LoadCodeRequest) (j : ℕ)
      → IsBacked start.ee
      → ArraysFit env.os request j start.ee
      → Comes env start s
      → ArraysFit env.os request j s.ee
  Comes-ArraysFit request j backed fits here = fits
  Comes-ArraysFit request j backed fits (next before alive step) =
      Act-ArraysFit request j (Comes-Continues backed before).backed
        (Comes-ArraysFit request j backed fits before) step
