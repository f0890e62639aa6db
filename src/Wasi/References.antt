-- ===== src/Wasi/References.antt =====
-- Which references to open files the host functions of wasi/ext.c take with `fget` and give back with
-- `fput`.
use kernel_wasm.Base.{
  ℕ, zero, suc, ◌+◌, ◌≡◌, refl, sym, ap, ◌≢◌, ◌⊎◌, inl, inr, Option, none, some, List, [], ◌∷◌,
  arith, ◌==◌, if◌then◌else◌, Bool-cases,
}
use kernel_wasm.Vm.Context.{Vmctx, vmctx_get_memory_slice}
use kernel_wasm.Wasi.Codes.{esuccess}
use kernel_wasm.Wasi.Calls
use kernel_wasm.Wasi.Io
use kernel_wasm.Wasi.Io.{Direction, iov_round, iov_loop, fd_transfer, account}
use kernel_wasm.Wasi.Host.{Event, Files, World, M, store32, fget}
use kernel_wasm.Wasi.Table.{
  HostFn, fd_prestat_get, fd_prestat_dir_name, environ_sizes_get, environ_get, args_sizes_get,
  args_get, random_get, fd_write, fd_read, proc_exit, fd_fdstat_get, fd_close, path_open, fd_seek,
  Outcome, returned, enter,
}

-- How often `fget` has returned the file.
abbrev pub gets : (file : ℕ) → List Event → ℕ
gets file [] = 0
gets file (Event.got f ∷ log) = (if f == file then 1 else 0) + gets file log
gets file (_ ∷ log) = gets file log

-- How often `fput` was given the file.
abbrev pub puts : (file : ℕ) → List Event → ℕ
puts file [] = 0
puts file (Event.put f ∷ log) = (if f == file then 1 else 0) + puts file log
puts file (_ ∷ log) = puts file log

-- What was taken in between was given back, as often.
abbrev pub IsBalanced : (file : ℕ) → World → World → Type 0
IsBalanced file w w' = gets file w'.log + puts file w.log ≡ puts file w'.log + gets file w.log

module _ (os : Files) (ctx : Vmctx) (file : ℕ) where
  iov_round-log :
      (d : Direction) (f iovs p i : ℕ) (w : World)
      → (gets file (iov_round os ctx d f iovs p i w).1.log ≡ gets file w.log)
        × (puts file (iov_round os ctx d f iovs p i w).1.log ≡ puts file w.log)
  unfolding iov_round account
  iov_round-log Direction.writing f iovs p i w = ground arith
  iov_round-log Direction.reading f iovs p i w = ground arith

  iov_loop-log :
      (d : Direction) (f iovs p left i : ℕ) (w : World)
      → (gets file (iov_loop os ctx d f iovs p left i w).1.log ≡ gets file w.log)
        × (puts file (iov_loop os ctx d f iovs p left i w).1.log
            ≡ (if f == file then 1 else 0) + puts file w.log)
  unfolding iov_loop
  iov_loop-log d f iovs p zero i w = (refl, refl)
  iov_loop-log d f iovs p (suc left) i w = ground (
    arith,
    iov_round-log d f iovs p i w,
    iov_loop-log d f iovs p left (i + 1) (iov_round os ctx d f iovs p i w).1,
  )

  fd_transfer-IsBalanced :
      (d : Direction) (fd iovs n p : ℕ) (w : World)
      → file ≢ 0
      → IsBalanced file w (fd_transfer os ctx d fd iovs n p w).1
  unfolding fd_transfer
  fd_transfer-IsBalanced d fd iovs n p w used =
      let p₄ = vmctx_get_memory_slice ctx p 4 in
      let w₁ = (store32 p₄ 0 w).1 in
      let f = fget os fd w₁ in ground (arith, iov_loop-log d f.0 iovs p₄ n 0 f.1)

  abbrev Balances : Option (M Outcome) → Type 0
  Balances none = Unit
  Balances (some m) = (w : World) → IsBalanced file w (m w).1

  enter-Balances :
      (fn : HostFn) (args : List ℕ)
      → file ≢ 0
      → fn ≢ fd_prestat_get
      → Balances (enter os ctx fn args)
  unfolding enter Calls.fd_prestat_dir_name Calls.put_sizes Calls.environ_sizes_get
      Calls.environ_get Calls.args_sizes_get Calls.args_get Calls.random_get Calls.fd_close
      Calls.path_open Calls.fd_fdstat_get Calls.fd_seek Io.fd_write Io.fd_read
  enter-Balances fd_prestat_get args used other = absurd (other refl)
  enter-Balances fd_prestat_dir_name (fd ∷ p ∷ n ∷ []) used other = λ w. ground arith
  enter-Balances environ_sizes_get (p ∷ q ∷ []) used other = λ w. ground arith
  enter-Balances environ_get (p ∷ q ∷ []) used other = λ w. omega arith
  enter-Balances args_sizes_get (p ∷ q ∷ []) used other = λ w. ground arith
  enter-Balances args_get (p ∷ q ∷ []) used other = λ w. ground arith
  enter-Balances random_get (p ∷ n ∷ []) used other = λ w. omega arith
  enter-Balances fd_write (fd ∷ iovs ∷ n ∷ p ∷ []) used other =
      λ w. fd_transfer-IsBalanced Direction.writing fd iovs n p w used
  enter-Balances fd_read (fd ∷ iovs ∷ n ∷ p ∷ []) used other =
      λ w. fd_transfer-IsBalanced Direction.reading fd iovs n p w used
  enter-Balances proc_exit (rval ∷ []) used other = λ w. omega arith
  enter-Balances fd_fdstat_get (p ∷ q ∷ []) used other = λ w. omega arith
  enter-Balances fd_close (fd ∷ []) used other = λ w. ground arith
  enter-Balances path_open (dirfd ∷ dirflags ∷ p ∷ n ∷ o ∷ base ∷ inh ∷ flags ∷ fd ∷ []) used
        other =
      λ w. ground arith
  enter-Balances fd_seek (fd ∷ o ∷ h ∷ p ∷ []) used other = λ w. ground arith
  enter-Balances _ _ used other = tt

-- Every host function but `fd_prestat_get` gives back, on every path, each reference to an open file
-- that it takes: between the start and the end of the call, `fget` has returned a file as often as
-- `fput` was given it.
enter-IsBalanced :
    (os : Files) (ctx : Vmctx) (fn : HostFn) (args : List ℕ) (m : M Outcome) (w : World) (file : ℕ)
    → file ≢ 0
    → fn ≢ fd_prestat_get
    → enter os ctx fn args ≡ some m
    → IsBalanced file w (m w).1
enter-IsBalanced os ctx fn args m w file used other e =
    (rw e at (enter-Balances os ctx file fn args used other)) w

-- `fd_prestat_get` keeps a reference whenever it succeeds: there is a file that it took once more than
-- it gave back. When it fails, it gave back each reference to an open file that it took.
fd_prestat_get_keeps :
    (os : Files) (ctx : Vmctx) (fd p : ℕ) (w : World) (other : ℕ)
    → other ≢ 0
    → (((Calls.fd_prestat_get ctx os fd p w).0 ≡ esuccess)
        × (file : ℕ) × (file ≢ 0)
        × (gets file (Calls.fd_prestat_get ctx os fd p w).1.log ≡ suc (gets file w.log))
        × (puts file (Calls.fd_prestat_get ctx os fd p w).1.log ≡ puts file w.log))
      ⊎ (((Calls.fd_prestat_get ctx os fd p w).0 ≢ esuccess)
          × IsBalanced other w (Calls.fd_prestat_get ctx os fd p w).1)
unfolding Calls.fd_prestat_get
fd_prestat_get_keeps os ctx fd p w other used =
    elim (Bool-cases (vmctx_get_memory_slice ctx p 8 == 0)) [
      | inl fault ↦ rw fault (inr (omega arith, omega arith))
      | inr granted ↦ rw granted (elim (Bool-cases (os.fget w fd == 0)) [
        | inl bad ↦ rw bad (inr (omega arith, ground arith))
        | inr good ↦ rw good (inl (refl, os.fget w fd, ground arith, ground arith, refl))
      ])
    ]

which : (fn : HostFn) → (fn ≡ fd_prestat_get) ⊎ (fn ≢ fd_prestat_get)
which fn = ground arith

-- The reference to a file was taken, and not given back.
abbrev pub IsKept : (file : ℕ) → World → World → Type 0
IsKept file w w' =
    (file ≢ 0) × (gets file w'.log ≡ suc (gets file w.log)) × (puts file w'.log ≡ puts file w.log)

abbrev Keeps : (file : ℕ) → Option (M Outcome) → Type 0
Keeps file none = Unit
Keeps file (some m) =
    (w : World)
    → IsBalanced file w (m w).1
      ⊎ (((m w).0 ≡ returned esuccess) × (kept : ℕ) × IsKept kept w (m w).1)

fd_prestat_get-Keeps :
    (os : Files) (ctx : Vmctx) (args : List ℕ) (file : ℕ)
    → file ≢ 0
    → Keeps file (enter os ctx fd_prestat_get args)
unfolding enter
fd_prestat_get-Keeps os ctx (fd ∷ p ∷ []) file used = λ w.
    elim (fd_prestat_get_keeps os ctx fd p w file used) [
      | inl (success, kept, used_file, taken, held) ↦
          inr (ap returned success, kept, (used_file, taken, held))
      | inr (failed, balanced) ↦ inl balanced
    ]
fd_prestat_get-Keeps _ _ _ file used = tt

-- Whatever function of wasi/ext.c is called, each reference to an open file that it takes is given back
-- before it ends, on every path: `fget` has returned the file as often as `fput` was given it. The one
-- exception is a `fd_prestat_get` that succeeds: it keeps a reference to a file.
pub enter_references :
    (os : Files) (ctx : Vmctx) (fn : HostFn) (args : List ℕ) (m : M Outcome) (w : World) (file : ℕ)
    → file ≢ 0
    → enter os ctx fn args ≡ some m
    → IsBalanced file w (m w).1
      ⊎ ((fn ≡ fd_prestat_get) × ((m w).0 ≡ returned esuccess) × (kept : ℕ) × IsKept kept w (m w).1)
enter_references os ctx fn args m w file used e = elim (which fn) [
  | inr other ↦ inl (enter-IsBalanced os ctx fn args m w file used other e)
  | inl same ↦ elim ((rw (sym same, e) at (fd_prestat_get-Keeps os ctx args file used)) w) [
    | inl balanced ↦ inl balanced
    | inr (success, file, kept) ↦ inr (same, success, file, kept)
  ]
]
