-- ===== src/Net/Table.antt =====
-- networking/ext.c: `do_resolve`, and the entry of the function that an import was resolved to.
pub mod Arity
use Prim.Native.String.{String}
use kernel_wasm.Base.{ℕ, Option, none, some, List, [], ◌∷◌}
use kernel_wasm.Kapi.Info.{Resolve, resolved, refused, on_name}
use kernel_wasm.Net.Calls
use kernel_wasm.Net.Host.{Kernel, M}
use kernel_wasm.Vm.Context.{Vmctx}

-- The functions that `do_resolve` hands out.
pub data HostFn : Type 0 where
  socket bind listen accept4 sendto recvfrom eventfd_sem epoll_create epoll_ctl epoll_wait : HostFn
  fcntl : HostFn

-- `do_resolve`.
unfoldable pub do_resolve : String → Resolve HostFn
do_resolve name = on_name name "net##_socket" (resolved socket 3) (
    on_name name "net##_bind" (resolved bind 3) (
      on_name name "net##_listen" (resolved listen 2) (
        on_name name "net##_accept4" (resolved accept4 4) (
          on_name name "net##_sendto" (resolved sendto 6) (
            on_name name "net##_recvfrom" (resolved recvfrom 6) (
              on_name name "net##_eventfd_sem" (resolved eventfd_sem 1) (
                on_name name "net##_epoll_create" (resolved epoll_create 0) (
                  on_name name "net##_epoll_ctl" (resolved epoll_ctl 4) (
                    on_name name "net##_epoll_wait" (resolved epoll_wait 4)
                      (on_name name "net##_fcntl" (resolved fcntl 3) refused))))))))))

-- The call of a host function with the arguments that its C signature takes after the context;
-- `none` if there are more or fewer.
unfoldable pub enter : Kernel → Vmctx → HostFn → List ℕ → Option (M ℕ)
enter os ctx socket (family ∷ type ∷ proto ∷ []) = some (Calls.socket os family type proto)
enter os ctx bind (fd ∷ sockaddr ∷ len ∷ []) = some (Calls.bind os ctx fd sockaddr len)
enter os ctx listen (fd ∷ backlog ∷ []) = some (Calls.listen os ctx fd backlog)
enter os ctx accept4 (fd ∷ sockaddr ∷ len_p ∷ flags ∷ []) =
    some (Calls.accept4 os ctx fd sockaddr len_p flags)
enter os ctx sendto (fd ∷ buf ∷ len ∷ flags ∷ addr ∷ addr_len ∷ []) =
    some (Calls.sendto os ctx fd buf len flags addr addr_len)
enter os ctx recvfrom (fd ∷ buf ∷ len ∷ flags ∷ addr ∷ len_p ∷ []) =
    some (Calls.recvfrom os ctx fd buf len flags addr len_p)
enter os ctx eventfd_sem (initial ∷ []) = some (Calls.eventfd_sem os ctx initial)
enter os ctx epoll_create [] = some (Calls.epoll_create os ctx)
enter os ctx epoll_ctl (epfd ∷ op ∷ fd ∷ event ∷ []) =
    some (Calls.epoll_ctl os ctx epfd op fd event)
enter os ctx epoll_wait (epfd ∷ events ∷ maxevents ∷ timeout ∷ []) =
    some (Calls.epoll_wait os ctx epfd events maxevents timeout)
enter os ctx fcntl (fd ∷ cmd ∷ arg ∷ []) = some (Calls.fcntl os ctx fd cmd arg)
enter os ctx fn args = none
