-- ===== src/Wasi/Table/Arity.antt =====
-- `do_resolve` and the C signatures agree on how many arguments a host function takes.
use Prim.Native.String.{String}
use kernel_wasm.Base.{ℕ, ◌≡◌, refl, ◌↔◌, true, some, List, arith, length, is_some}
use kernel_wasm.Kapi.Info.{ImportInfo}
use kernel_wasm.Kapi.Ladder.{IsSound, rung, bottom}
use kernel_wasm.Vm.Context.{Vmctx}
use kernel_wasm.Wasi.Host.{Files}
use kernel_wasm.Wasi.Table.{
  HostFn, fd_prestat_get, fd_prestat_dir_name, fd_write, fd_read, proc_exit, fd_close, path_open,
  fd_seek, do_resolve, enter,
}

-- `param_count` as the table gives it.
arity : HostFn → ℕ
arity fd_prestat_dir_name = 3
arity fd_write = 4
arity fd_read = 4
arity proc_exit = 1
arity fd_close = 1
arity path_open = 9
arity fd_seek = 4
arity _ = 2

enter-arity :
    (os : Files) (ctx : Vmctx) (fn : HostFn) (args : List ℕ)
    → (is_some (enter os ctx fn args) ≡ true) ↔ (length args ≡ arity fn)
unfolding enter arity
enter-arity os ctx fd_prestat_get args = ground arith
enter-arity os ctx fn args = ground arith

do_resolve-IsSound : (name : String) → IsSound arity (do_resolve name)
unfolding do_resolve arity
do_resolve-IsSound name = rung arity _ _ _ _ _ refl (
    rung arity _ _ _ _ _ refl (
      rung arity _ _ _ _ _ refl (
        rung arity _ _ _ _ _ refl (
          rung arity _ _ _ _ _ refl (
            rung arity _ _ _ _ _ refl (
              rung arity _ _ _ _ _ refl (
                rung arity _ _ _ _ _ refl (
                  rung arity _ _ _ _ _ refl (
                    rung arity _ _ _ _ _ refl (
                      rung arity _ _ _ _ _ refl (
                        rung arity _ _ _ _ _ refl (
                          rung arity _ _ _ _ _ refl
                            (rung arity _ _ _ _ _ refl (bottom arity))))))))))))))

-- When `do_resolve` succeeds with a function, that function can be entered with just as many
-- arguments as the parameter count that `do_resolve` reports.
pub wasi_resolve-param_count :
    (os : Files) (ctx : Vmctx) (name : String) (out : ImportInfo HostFn) (fn : HostFn)
    (args : List ℕ)
    → (do_resolve name out).0 ≡ 0
    → (do_resolve name out).1.fn ≡ some fn
    → (is_some (enter os ctx fn args) ≡ true) ↔ (length args ≡ (do_resolve name out).1.param_count)
wasi_resolve-param_count os ctx name out fn args h e =
    rw ((do_resolve-IsSound name).counted out fn h e) (enter-arity os ctx fn args)
