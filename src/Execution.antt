-- ===== src/Execution.antt =====
-- The compiled code of an engine at work: its own stores, the calls of the functions of wasi/ext.c and
-- networking/ext.c that its imports were linked to, and the intrinsic `wasm_memory_grow` of vm.c. The
-- code is generated elsewhere: what it may do by itself is a relation.
pub mod Keeps
pub mod Confined
pub mod Imports
pub mod Whole
use kernel_wasm.Base.{
  ℕ, ◌+◌, ◌*◌, ◌≡◌, Bool, true, false, ◌&&◌, ◌||◌, leb, ltb, Option, none, some, List, Ram,
}
use kernel_wasm.Kernel.{Kernel, World}
use kernel_wasm.Net.Host as NetHost
use kernel_wasm.Net.Table as NetTable
use kernel_wasm.Vm.Engine.{Engine, stack_size}
use kernel_wasm.Vm.Grow.{wasm_memory_grow}
use kernel_wasm.Wasi.Host as WasiHost
use kernel_wasm.Wasi.Table as WasiTable
use kernel_wasm.Wasi.Table.{Outcome, returned, exited}

-- The addresses of the host functions, the kernel that each part of the code under it calls, and how
-- many globals the module has.
pub record Environment : Type 0 where
  pub wasi : WasiTable.HostFn → ℕ
  pub net : NetTable.HostFn → ℕ
  pub files : WasiHost.Files
  pub sockets : NetHost.Kernel
  pub os : Kernel
  pub global_count : ℕ

-- The engine, kernel memory, and the code with which `proc_exit` ended the thread, if it did.
pub record Running : Type 0 where
  pub ee : Engine
  pub ram : Ram
  pub exit_code : Option ℕ

-- `a` is one of the `n` bytes at `p`.
abbrev pub within : (a p n : ℕ) → Bool
within a p n = leb p a && ltb a (p + n)

-- The first `bound` bytes from the start of the memory, the stack of the code and its globals.
abbrev pub owns : (bound global_count : ℕ) → Engine → ℕ → Bool
owns bound global_count ee a =
    within a ee.ctx.memory_base bound
    || within a ee.stack_backing stack_size
    || within a ee.local_global_backing (8 * global_count)

-- What a function of wasi/ext.c leaves. `do_exit` ends the thread.
abbrev pub ended : Engine → Outcome × WasiHost.World → Running
ended ee (returned code, w) = record { ee = ee; ram = w.ram; exit_code = none }
ended ee (exited code, w) = record { ee = ee; ram = w.ram; exit_code = some code }

module _ (env : Environment) where
  -- A call of the import with the number `i`, on the kernel memory there is.
  pub data Call (s : Running) (i : ℕ) (args : List ℕ) : Running → Type 0 where
    to_wasi :
        (fn : WasiTable.HostFn) (m : WasiHost.M Outcome) (w : WasiHost.World)
        → s.ee.imported_func i ≡ some (env.wasi fn)
        → WasiTable.enter env.files s.ee.ctx fn args ≡ some m
        → w.ram ≡ s.ram
        → Call s i args (ended s.ee (m w))
    to_net :
        (fn : NetTable.HostFn) (m : NetHost.M ℕ) (w : NetHost.World)
        → s.ee.imported_func i ≡ some (env.net fn)
        → NetTable.enter env.sockets s.ee.ctx fn args ≡ some m
        → w.ram ≡ s.ram
        → Call s i args (record s { ram = (m w).1.ram })

  -- One step of a thread that has not ended.
  pub data Act (s : Running) : Running → Type 0 where
    store :
        (ram : Ram)
        → ((a : ℕ) → owns s.ee.ctx.memory_bound env.global_count s.ee a ≡ false → ram a ≡ s.ram a)
        → Act s (record s { ram = ram })
    call : (i : ℕ) (args : List ℕ) {s' : Running} → Call s i args s' → Act s s'
    grow :
        (pages : ℕ) (w : World)
        → w.ram ≡ s.ram
        → Act s (record s {
          ee = (wasm_memory_grow env.os pages s.ee w).ee;
          ram = (wasm_memory_grow env.os pages s.ee w).world.ram;
        })

  -- What the thread can come to.
  pub data Comes (start : Running) : Running → Type 0 where
    here : Comes start start
    next : {s s' : Running} → Comes start s → s.exit_code ≡ none → Act s s' → Comes start s'
