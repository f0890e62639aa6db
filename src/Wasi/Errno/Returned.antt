-- ===== src/Wasi/Errno/Returned.antt =====
-- wasi/ext.c: which errors each function returns.
use kernel_wasm.Base.{
  ℕ, zero, suc, ◌+◌, ◌≡◌, refl, ◌⊎◌, inl, Option, none, some, List, [], ◌∷◌, arith,
}
use kernel_wasm.Vm.Context.{Vmctx, vmctx_get_memory_slice}
use kernel_wasm.Wasi.Calls
use kernel_wasm.Wasi.Errno.{Errno, errno_code}
use kernel_wasm.Wasi.Host.{Files, M, World, store32, fget}
use kernel_wasm.Wasi.Io
use kernel_wasm.Wasi.Io.{Direction, iov_round, iov_loop, fd_transfer}
use kernel_wasm.Wasi.Table.{
  HostFn, fd_prestat_get, fd_prestat_dir_name, environ_sizes_get, environ_get, args_sizes_get,
  args_get, random_get, fd_write, fd_read, proc_exit, fd_fdstat_get, fd_close, path_open, fd_seek,
  Outcome, returned, exited, enter,
}

-- The errors that the source of each function names; the polyfill `_fd_fdstat_get` returns 1.
unfoldable pub may_return : HostFn → List Errno
may_return fd_prestat_get = Errno.esuccess ∷ Errno.ebadf ∷ Errno.efault ∷ []
may_return fd_prestat_dir_name = Errno.esuccess ∷ Errno.efault ∷ Errno.einval ∷ []
may_return environ_sizes_get = Errno.esuccess ∷ Errno.efault ∷ []
may_return environ_get = Errno.esuccess ∷ []
may_return args_sizes_get = Errno.esuccess ∷ Errno.efault ∷ []
may_return args_get = Errno.esuccess ∷ Errno.efault ∷ []
may_return random_get = Errno.esuccess ∷ []
may_return fd_write = Errno.esuccess ∷ Errno.ebadf ∷ Errno.efault ∷ Errno.epipe ∷ []
may_return fd_read = Errno.esuccess ∷ Errno.ebadf ∷ Errno.efault ∷ Errno.epipe ∷ []
may_return proc_exit = []
may_return fd_fdstat_get = Errno.e2big ∷ []
may_return fd_close = Errno.esuccess ∷ Errno.ebadf ∷ []
may_return path_open = Errno.efault ∷ Errno.einval ∷ []
may_return fd_seek = Errno.esuccess ∷ Errno.efault ∷ []

-- The value is the code of one of the errors.
abbrev IsCode : List Errno → ℕ → Type 0
IsCode [] v = ⊥
IsCode (e ∷ es) v = (v ≡ errno_code e) ⊎ IsCode es v

-- How a call of the function may end.
abbrev pub Ends : HostFn → Outcome → Type 0
Ends fn (returned v) = IsCode (may_return fn) v
Ends fn (exited v) = fn ≡ proc_exit

module _ (os : Files) (ctx : Vmctx) where
  abbrev Transferred : ℕ → Type 0
  Transferred = IsCode (Errno.esuccess ∷ Errno.ebadf ∷ Errno.efault ∷ Errno.epipe ∷ [])

  iov_round-errors :
      (d : Direction) (f iovs count_p i : ℕ) (w : World)
      → ((iov_round os ctx d f iovs count_p i w).0 ≡ none)
        ⊎ ((iov_round os ctx d f iovs count_p i w).0 ≡ some (errno_code Errno.efault))
        ⊎ ((iov_round os ctx d f iovs count_p i w).0 ≡ some (errno_code Errno.epipe))
  unfolding iov_round errno_code Io.account
  iov_round-errors Direction.writing f iovs count_p i w = ground arith
  iov_round-errors Direction.reading f iovs count_p i w = ground arith

  iov_loop-errors :
      (d : Direction) (f iovs count_p left i : ℕ) (w : World)
      → Transferred (iov_loop os ctx d f iovs count_p left i w).0
  unfolding iov_loop errno_code
  iov_loop-errors d f iovs count_p zero i w = inl refl
  iov_loop-errors d f iovs count_p (suc left) i w = ground (
    arith,
    iov_round-errors d f iovs count_p i w,
    iov_loop-errors d f iovs count_p left (i + 1) (iov_round os ctx d f iovs count_p i w).1,
  )

  fd_transfer-errors :
      (d : Direction) (fd iovs iovs_len count : ℕ) (w : World)
      → Transferred (fd_transfer os ctx d fd iovs iovs_len count w).0
  unfolding fd_transfer errno_code
  fd_transfer-errors d fd iovs iovs_len count w =
      let p₄ = vmctx_get_memory_slice ctx count 4 in
      let w₁ = (store32 p₄ 0 w).1 in
      let f = fget os fd w₁ in ground (arith, iov_loop-errors d f.0 iovs p₄ iovs_len 0 f.1)

  abbrev Answers : HostFn → Option (M Outcome) → Type 0
  Answers fn none = Unit
  Answers fn (some m) = (w : World) → Ends fn (m w).0

  enter-Answers : (fn : HostFn) (args : List ℕ) → Answers fn (enter os ctx fn args)
  unfolding enter errno_code may_return Calls.environ_sizes_get Calls.args_sizes_get
      Calls.environ_get Calls.random_get Calls.fd_fdstat_get Calls.fd_close Calls.path_open
      Io.fd_write Io.fd_read Calls.fd_prestat_get Calls.fd_prestat_dir_name Calls.args_get
      Calls.fd_seek Calls.put_sizes
  enter-Answers fd_prestat_get (fd ∷ p ∷ []) = λ w. ground arith
  enter-Answers fd_prestat_dir_name (fd ∷ p ∷ n ∷ []) = λ w. ground arith
  enter-Answers environ_sizes_get (p ∷ q ∷ []) = λ w. ground arith
  enter-Answers environ_get (p ∷ q ∷ []) = λ w. inl refl
  enter-Answers args_sizes_get (p ∷ q ∷ []) = λ w. ground arith
  enter-Answers args_get (p ∷ q ∷ []) = λ w. ground arith
  enter-Answers random_get (p ∷ n ∷ []) = λ w. inl refl
  enter-Answers fd_write (fd ∷ iovs ∷ n ∷ p ∷ []) = fd_transfer-errors Direction.writing fd iovs n p
  enter-Answers fd_read (fd ∷ iovs ∷ n ∷ p ∷ []) = fd_transfer-errors Direction.reading fd iovs n p
  enter-Answers proc_exit (rval ∷ []) = λ w. refl
  enter-Answers fd_fdstat_get (p ∷ q ∷ []) = λ w. inl refl
  enter-Answers fd_close (fd ∷ []) = λ w. ground arith
  enter-Answers path_open (dirfd ∷ dirflags ∷ p ∷ n ∷ o ∷ base ∷ inh ∷ flags ∷ fd ∷ []) =
      λ w. ground arith
  enter-Answers fd_seek (fd ∷ o ∷ h ∷ p ∷ []) = λ w. ground arith
  enter-Answers _ _ = tt

-- A call of a function of wasi/ext.c, with whatever arguments, either returns the code of one of the
-- errors of wasi/def.h that are listed for the function, or is one of `proc_exit` and ends the thread.
pub enter-errors :
    (os : Files) (ctx : Vmctx) (fn : HostFn) (args : List ℕ) (m : M Outcome) (w : World)
    → enter os ctx fn args ≡ some m
    → Ends fn (m w).0
enter-errors os ctx fn args m w e = (rw e at (enter-Answers os ctx fn args)) w
