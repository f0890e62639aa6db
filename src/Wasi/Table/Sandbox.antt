-- ===== src/Wasi/Table/Sandbox.antt =====
-- The sandbox: no host function that a module can import from wasi/ext.c writes outside the module's
-- linear memory.
use kernel_wasm.Base.{ℕ, ◌≡◌, refl, false, Option, none, some, List, [], ◌∷◌, arith}
use kernel_wasm.Vm.Context.{Vmctx}
use kernel_wasm.Vm.Slice.{IsPlaced, inside}
use kernel_wasm.Wasi.Calls
use kernel_wasm.Wasi.Calls.Confined.{
  fd_prestat_get-Confined, fd_prestat_dir_name-Confined, put_sizes-Confined, args_get-Confined,
  fd_seek-Confined,
}
use kernel_wasm.Wasi.Io
use kernel_wasm.Wasi.Io.{Direction}
use kernel_wasm.Wasi.Io.Confined.{fd_transfer-Confined}
use kernel_wasm.Wasi.Host.{Files, World, M, IsLawful}
use kernel_wasm.Wasi.Table.{
  HostFn, fd_prestat_get, fd_prestat_dir_name, environ_sizes_get, environ_get, args_sizes_get,
  args_get, random_get, fd_write, fd_read, proc_exit, fd_fdstat_get, fd_close, path_open, fd_seek,
  Outcome, enter,
}

module _ (os : Files) (lawful : IsLawful os) (ctx : Vmctx) (placed : IsPlaced ctx) (a : ℕ)
    (out : inside ctx a ≡ false) where
  -- The byte at `a` is what it was, whatever is entered.
  abbrev Spares : Option (M Outcome) → Type 0
  Spares none = Unit
  Spares (some m) = (w : World) → (m w).1.ram a ≡ w.ram a

  enter-Spares : (fn : HostFn) (args : List ℕ) → Spares (enter os ctx fn args)
  unfolding enter Calls.environ_sizes_get Calls.args_sizes_get Calls.environ_get Calls.random_get
      Calls.fd_fdstat_get Calls.fd_close Calls.path_open Io.fd_write Io.fd_read
  enter-Spares fd_prestat_get (fd ∷ p ∷ []) = fd_prestat_get-Confined ctx placed a out os fd p
  enter-Spares fd_prestat_dir_name (fd ∷ p ∷ n ∷ []) =
      fd_prestat_dir_name-Confined ctx placed a out fd p n
  enter-Spares environ_sizes_get (p ∷ q ∷ []) = put_sizes-Confined ctx placed a out p q 0 0
  enter-Spares environ_get (p ∷ q ∷ []) = λ w. refl
  enter-Spares args_sizes_get (p ∷ q ∷ []) = put_sizes-Confined ctx placed a out p q 1 5
  enter-Spares args_get (p ∷ q ∷ []) = args_get-Confined ctx placed a out p q
  enter-Spares random_get (p ∷ n ∷ []) = λ w. refl
  enter-Spares fd_write (fd ∷ iovs ∷ n ∷ p ∷ []) =
      fd_transfer-Confined ctx placed a out os lawful Direction.writing fd iovs n p
  enter-Spares fd_read (fd ∷ iovs ∷ n ∷ p ∷ []) =
      fd_transfer-Confined ctx placed a out os lawful Direction.reading fd iovs n p
  enter-Spares proc_exit (rval ∷ []) = λ w. refl
  enter-Spares fd_fdstat_get (p ∷ q ∷ []) = λ w. refl
  enter-Spares fd_close (fd ∷ []) = λ w. ground arith
  enter-Spares path_open (dirfd ∷ dirflags ∷ p ∷ n ∷ o ∷ base ∷ inh ∷ flags ∷ fd ∷ []) =
      λ w. ground arith
  enter-Spares fd_seek (fd ∷ o ∷ h ∷ p ∷ []) = fd_seek-Confined ctx placed a out fd o h p
  enter-Spares _ _ = tt

-- Whatever function of wasi/ext.c a module calls and with whatever arguments, in a placed memory and
-- over a kernel that keeps to the buffers it is given, no byte outside the module's linear memory
-- changes.
pub enter_sandboxed :
    (os : Files) (ctx : Vmctx) (fn : HostFn) (args : List ℕ) (m : M Outcome) (w : World) (a : ℕ)
    → IsLawful os
    → IsPlaced ctx
    → enter os ctx fn args ≡ some m
    → inside ctx a ≡ false
    → (m w).1.ram a ≡ w.ram a
enter_sandboxed os ctx fn args m w a lawful placed e out =
    (rw e at (enter-Spares os lawful ctx placed a out fn args)) w
