-- ===== src/Net/Table/Arity.antt =====
-- `do_resolve` and the C signatures agree on how many arguments a host function takes.
use Prim.Native.String.{String}
use kernel_wasm.Base.{ℕ, ◌≡◌, refl, ◌↔◌, true, some, List, arith, length, is_some}
use kernel_wasm.Kapi.Info.{ImportInfo}
use kernel_wasm.Kapi.Ladder.{IsSound, rung, bottom}
use kernel_wasm.Net.Host.{Kernel}
use kernel_wasm.Net.Table.{
  HostFn, socket, bind, sendto, recvfrom, eventfd_sem, epoll_create, listen, fcntl, do_resolve,
  enter,
}
use kernel_wasm.Vm.Context.{Vmctx}

-- `param_count` as the table gives it.
arity : HostFn → ℕ
arity socket = 3
arity bind = 3
arity listen = 2
arity sendto = 6
arity recvfrom = 6
arity eventfd_sem = 1
arity epoll_create = 0
arity fcntl = 3
arity _ = 4

enter-arity :
    (os : Kernel) (ctx : Vmctx) (fn : HostFn) (args : List ℕ)
    → (is_some (enter os ctx fn args) ≡ true) ↔ (length args ≡ arity fn)
unfolding enter arity
enter-arity os ctx socket args = ground arith
enter-arity os ctx fn args = ground arith

do_resolve-IsSound : (name : String) → IsSound arity (do_resolve name)
unfolding do_resolve arity
do_resolve-IsSound name = rung arity _ _ _ _ _ refl (
    rung arity _ _ _ _ _ refl (
      rung arity _ _ _ _ _ refl (
        rung arity _ _ _ _ _ refl (
          rung arity _ _ _ _ _ refl (
            rung arity _ _ _ _ _ refl (
              rung arity _ _ _ _ _ refl (
                rung arity _ _ _ _ _ refl (
                  rung arity _ _ _ _ _ refl
                    (rung arity _ _ _ _ _ refl (rung arity _ _ _ _ _ refl (bottom arity)))))))))))

-- When `do_resolve` of the networking extension succeeds with a function, that function can be entered
-- with just as many arguments as the parameter count that `do_resolve` reports.
pub net_resolve-param_count :
    (os : Kernel) (ctx : Vmctx) (name : String) (out : ImportInfo HostFn) (fn : HostFn)
    (args : List ℕ)
    → (do_resolve name out).0 ≡ 0
    → (do_resolve name out).1.fn ≡ some fn
    → (is_some (enter os ctx fn args) ≡ true) ↔ (length args ≡ (do_resolve name out).1.param_count)
net_resolve-param_count os ctx name out fn args h e =
    rw ((do_resolve-IsSound name).counted out fn h e) (enter-arity os ctx fn args)
