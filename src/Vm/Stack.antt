-- ===== src/Vm/Stack.antt =====
-- vm.c: the stack that `init_execution_engine` gives to compiled code.
use kernel_wasm.Base.{ℕ, ◌+◌, ◌%◌, ◌^◌, ◌≤◌, ◌≡◌, ◌≢◌, arith}
use kernel_wasm.Kapi.Info.{ImportInfo}
use kernel_wasm.Kapi.Registry.{Registry}
use kernel_wasm.Kernel.{Kernel, World, virt}
use kernel_wasm.Vm.Engine.{Engine, LoadCodeRequest, stack_size, stack_guard_size}
use kernel_wasm.Vm.Init.{
  init_body, init_code, init_memory, init_globals, init_imports, init_sigindices, init_table,
  init_stack,
}
use kernel_wasm.Vm.Load.{init_execution_engine}
use kernel_wasm.Vm.Triple.{Triple, Triple-then, AnyEngine, any, load_leaves}

-- The pages of the guard, the limit that compiled code keeps to, and the end of the stack, where
-- coroutines start, lie in this order in what was allocated; the end is aligned.
pub record HasStack (ee : Engine) : Type 0 where
  pub allocated : ee.stack_backing ≢ 0
  pub begins : ee.stack_backing ≤ ee.stack_begin
  pub paged : ee.stack_begin % 4096 ≡ 0
  pub guarded : ee.stack_begin + stack_guard_size + 8192 ≡ ee.stack_lower_bound
  pub room : ee.stack_lower_bound + 2 ^ 20 ≤ ee.stack_end
  pub ends : ee.stack_end ≤ ee.stack_backing + stack_size
  pub aligned : ee.stack_end % 16 ≡ 0

-- The allocation of the stack does not reach the last page of the address space.
pub record Fits (os : Kernel) : Type 0 where
  pub fits : (w : World) → os.allocate w virt stack_size + stack_size + 4096 ≤ 2 ^ 64

module _ (os : Kernel) (request : LoadCodeRequest) (info : ImportInfo ℕ) where
  init_stack-HasStack : Fits os → Triple AnyEngine (init_stack os request) HasStack
  unfolding init_stack
  init_stack-HasStack fits = record {
    leaves = λ s r h.
        let bound = fits.fits s.world in
        record {
          allocated = ground arith;
          begins = ground arith;
          paged = ground arith;
          guarded = ground arith;
          room = ground arith;
          ends = ground arith;
          aligned = ground arith;
        };
  }

  body-HasStack : Fits os → Triple AnyEngine (init_body os request info) HasStack
  unfolding init_body
  body-HasStack fits = Triple-then (any (init_code os request)) (
      Triple-then (any (init_memory os request)) (
        Triple-then (any (init_globals os request)) (
          Triple-then (any (init_imports os request info)) (
            Triple-then (any (init_sigindices os request))
              (Triple-then (any (init_table os request)) (init_stack-HasStack fits))))))

-- When `init_execution_engine` returns 0 and the stack that it allocated does not reach the last page
-- of the address space, the guard, the limit of compiled code, at least 2 ^ 20 bytes above it and the
-- end of the stack lie in this order within the allocation; the guard starts at a page, and the end is
-- a multiple of 16.
pub init_execution_engine-HasStack :
    (os : Kernel) (g : Registry) (info : ImportInfo ℕ) (request : LoadCodeRequest) (ee : Engine)
    (w : World)
    → Fits os
    → (init_execution_engine os g info request ee w).err ≡ 0
    → HasStack (init_execution_engine os g info request ee w).ee
init_execution_engine-HasStack os g info request ee w fits h =
    let (good, fine, has) =
      load_leaves os request HasStack g info ee w
        (λ good. record {
          leaves = λ s e done. (body-HasStack os request info fits).leaves s tt done;
        })
        h in
    has
