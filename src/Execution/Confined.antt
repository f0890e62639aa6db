-- ===== src/Execution/Confined.antt =====
-- The memory that compiled code can change.
use kernel_wasm.Base.{ℕ, ◌≡◌, refl, sym, ◌∙◌, false, arith, List}
use kernel_wasm.Execution.{
  Environment, Running, owns, ended, Call, to_wasi, to_net, Act, store, call, grow, Comes, here,
  next,
}
use kernel_wasm.Execution.Keeps.{Continues, Comes-Continues}
use kernel_wasm.Net.Host as NetHost
use kernel_wasm.Net.Sandbox.{net_sandboxed}
use kernel_wasm.Vm.Engine.{Engine, static_memory_available}
use kernel_wasm.Vm.Grow.Frame.{wasm_memory_grow-same}
use kernel_wasm.Vm.Sized.{IsBacked}
use kernel_wasm.Vm.Sized.Placed.{CanGrow}
use kernel_wasm.Vm.Slice.{IsPlaced, inside}
use kernel_wasm.Wasi.Table.{Outcome, returned, exited}
use kernel_wasm.Wasi.Table.Sandbox.{enter_sandboxed}
use kernel_wasm.Wasi.Host as WasiHost

-- What the code's own area does not hold, no part of the memory up to a bound within it holds.
pub owns-Continues :
    (n : ℕ) (ee ee' : Engine) (a : ℕ)
    → Continues ee ee'
    → owns static_memory_available n ee a ≡ false
    → owns ee'.ctx.memory_bound n ee' a ≡ false
owns-Continues n ee ee' a k out = let same = k.same in let backed = k.backed.sized in ground arith

ended-ram : (ee : Engine) (r : Outcome × WasiHost.World) → (ended ee r).ram ≡ r.1.ram
ended-ram ee (returned code, w) = refl
ended-ram ee (exited code, w) = refl

module _ (env : Environment) (wasi_lawful : WasiHost.IsLawful env.files)
    (net_lawful : NetHost.IsLawful env.sockets) (a : ℕ) where
  Call-ram :
      {s s' : Running} {i : ℕ} {args : List ℕ}
      → IsPlaced s.ee.ctx
      → inside s.ee.ctx a ≡ false
      → Call env s i args s'
      → s'.ram a ≡ s.ram a
  Call-ram {s = s} {args = args} placed out (to_wasi fn m w linked entered same) =
      rw (ended-ram s.ee (m w), sym same)
        (enter_sandboxed env.files s.ee.ctx fn args m w a wasi_lawful placed entered out)
  Call-ram {s = s} {args = args} placed out (to_net fn m w linked entered same) =
      rw (sym same) (net_sandboxed env.sockets s.ee.ctx fn args m w a net_lawful placed entered out)

  Act-ram :
      {s s' : Running}
      → IsPlaced s.ee.ctx
      → owns s.ee.ctx.memory_bound env.global_count s.ee a ≡ false
      → Act env s s'
      → s'.ram a ≡ s.ram a
  Act-ram placed out (store ram spares) = spares a out
  Act-ram placed out (call i args c) = Call-ram placed (ground arith) c
  Act-ram {s = s} placed out (grow pages w same) =
      rw ((wasm_memory_grow-same env.os pages s.ee w).1, same) refl

  -- Whatever the code comes to, the byte at `a` stays if it lies outside what the code owns.
  pub Comes-ram :
      {start s : Running}
      → IsBacked start.ee
      → CanGrow start.ee
      → owns static_memory_available env.global_count start.ee a ≡ false
      → Comes env start s
      → s.ram a ≡ start.ram a
  Comes-ram backed can out here = refl
  Comes-ram {start = start} backed can out (next {s = s} before alive step) =
      let k = Comes-Continues env backed before in
      let same = k.same in
      let sized = k.backed.sized in
      Act-ram (omega arith) (owns-Continues env.global_count start.ee s.ee a k out) step
      ∙ Comes-ram backed can out before
