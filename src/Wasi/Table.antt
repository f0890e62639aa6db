-- ===== src/Wasi/Table.antt =====
-- wasi/ext.c: `do_resolve`, and the entry of the function that an import was resolved to.
pub mod Arity
pub mod Sandbox
use Prim.Native.String.{String}
use kernel_wasm.Base.{ℕ, Option, none, some, List, [], ◌∷◌, pure, ◌>>=◌}
use kernel_wasm.Kapi.Info.{Resolve, resolved, refused, on_name}
use kernel_wasm.Vm.Context.{Vmctx}
use kernel_wasm.Wasi.Host.{Files, M}
use kernel_wasm.Wasi.Calls
use kernel_wasm.Wasi.Io

-- The functions that `do_resolve` hands out.
pub data HostFn : Type 0 where
  fd_prestat_get fd_prestat_dir_name environ_sizes_get environ_get args_sizes_get : HostFn
  args_get random_get fd_write fd_read proc_exit fd_fdstat_get fd_close path_open fd_seek : HostFn

-- `do_resolve`.
unfoldable pub do_resolve : String → Resolve HostFn
do_resolve name = on_name name "wasi_unstable##fd_prestat_get" (resolved fd_prestat_get 2) (
    on_name name "wasi_unstable##fd_prestat_dir_name" (resolved fd_prestat_dir_name 3) (
      on_name name "wasi_unstable##environ_sizes_get" (resolved environ_sizes_get 2) (
        on_name name "wasi_unstable##environ_get" (resolved environ_get 2) (
          on_name name "wasi_unstable##args_sizes_get" (resolved args_sizes_get 2) (
            on_name name "wasi_unstable##args_get" (resolved args_get 2) (
              on_name name "wasi_unstable##random_get" (resolved random_get 2) (
                on_name name "wasi_unstable##fd_write" (resolved fd_write 4) (
                  on_name name "wasi_unstable##fd_read" (resolved fd_read 4) (
                    on_name name "wasi_unstable##proc_exit" (resolved proc_exit 1) (
                      on_name name "wasi_unstable##fd_fdstat_get" (resolved fd_fdstat_get 2) (
                        on_name name "wasi_unstable##fd_close" (resolved fd_close 1) (
                          on_name name "wasi_unstable##path_open" (resolved path_open 9) (
                            on_name name "wasi_unstable##fd_seek" (resolved fd_seek 4)
                              refused)))))))))))))

-- How a call ends: `do_exit` does not return.
pub data Outcome : Type 0 where
  returned : (code : ℕ) → Outcome
  exited : (code : ℕ) → Outcome

abbrev returning : M ℕ → M Outcome
returning m = do code ← m; pure (returned code)

-- The call of a host function with the arguments that its C signature takes after the context;
-- `none` if there are more or fewer.
unfoldable pub enter : Files → Vmctx → HostFn → List ℕ → Option (M Outcome)
enter os ctx fd_prestat_get (fd ∷ out ∷ []) = some (returning (Calls.fd_prestat_get ctx os fd out))
enter os ctx fd_prestat_dir_name (fd ∷ path ∷ path_len ∷ []) =
    some (returning (Calls.fd_prestat_dir_name ctx fd path path_len))
enter os ctx environ_sizes_get (count ∷ size ∷ []) =
    some (returning (Calls.environ_sizes_get ctx count size))
enter os ctx environ_get (environ ∷ buf ∷ []) = some (returning (Calls.environ_get ctx environ buf))
enter os ctx args_sizes_get (argc ∷ size ∷ []) =
    some (returning (Calls.args_sizes_get ctx argc size))
enter os ctx args_get (argv ∷ buf ∷ []) = some (returning (Calls.args_get ctx argv buf))
enter os ctx random_get (buf ∷ len ∷ []) = some (returning (Calls.random_get ctx buf len))
enter os ctx fd_write (fd ∷ iovs ∷ n ∷ nwritten ∷ []) =
    some (returning (Io.fd_write os ctx fd iovs n nwritten))
enter os ctx fd_read (fd ∷ iovs ∷ n ∷ nread ∷ []) =
    some (returning (Io.fd_read os ctx fd iovs n nread))
enter os ctx proc_exit (rval ∷ []) = some (pure (exited rval))
enter os ctx fd_fdstat_get (a ∷ b ∷ []) = some (returning (Calls.fd_fdstat_get ctx a b))
enter os ctx fd_close (fd ∷ []) = some (returning (Calls.fd_close ctx os fd))
enter os ctx path_open (dirfd ∷ dirflags ∷ path ∷ len ∷ oflags ∷ base ∷ inh ∷ flags ∷ out ∷ []) =
    some (returning (Calls.path_open ctx path len))
enter os ctx fd_seek (fd ∷ offset ∷ whence ∷ out ∷ []) =
    some (returning (Calls.fd_seek ctx fd offset whence out))
enter os ctx fn args = none
