-- ===== src/Tests/Net.antt =====
-- The host functions of networking/ext.c, run.
use kernel_wasm.Base.{
  ℕ, ◌+◌, ◌*◌, ◌≡◌, refl, ◌⊎◌, arith, true, false, some, [], ◌∷◌, ltb, leb, ◌==◌, ◌&&◌,
  if◌then◌else◌, is_neg, neg, Ram,
}
use kernel_wasm.Vm.Context.{vmctx_get_memory_slice}
use kernel_wasm.Net.Calls
use kernel_wasm.Net.Host.{Kernel, World, M, IsLawful, epoll_event_size, ep_max_events}
use kernel_wasm.Net.Resources.{
  IsRestored, net_restores, sockets_made, sockets_given, fds_reserved, fds_settled, IsBalanced,
  socket_leak,
}
use kernel_wasm.Net.Sandbox.{net_sandboxed}
use kernel_wasm.Net.Table.{HostFn, enter}
use kernel_wasm.Tests.Machine.{zeroes, one_page, one_page-IsPlaced}

-- The memory with twos in a buffer.
abbrev filled : Ram → (p n : ℕ) → Ram
filled m p n a = if leb p a && ltb a (p + n) then 2 else m a

-- A kernel without a free descriptor. A receive fills its buffer.
abbrev pub kernel : Kernel
kernel = record {
  kernel_ds = 99;
  is_err = λ p. p == 1;
  ptr_err = λ p. neg 12;
  sock_create_kern = λ w family type proto. (0, 5000);
  get_unused_fd_flags = λ w. neg 24;
  sock_alloc_file = λ w sock. 6000;
  fget = λ w fd. 4096 + fd;
  sock_from_file = λ w file. 5000;
  bind = λ w sock sockaddr len. 0;
  listen = λ w sock backlog. 0;
  sys_accept4 = λ w fd sockaddr len_p flags. (3, w.ram);
  sys_sendto = λ w fd buf len flags sockaddr addr_len. len;
  sys_recvfrom = λ w fd buf len flags sockaddr len_p. (len, filled w.ram buf len);
  sys_eventfd2 = λ w count flags. 4;
  sys_epoll_create = λ w size. 5;
  sys_epoll_ctl = λ w epfd op fd event. 0;
  sys_epoll_wait = λ w epfd events maxevents timeout. (
    1,
    if ltb ep_max_events maxevents
        then w.ram
        else filled w.ram events (epoll_event_size * maxevents),
  );
  sys_fcntl = λ w fd cmd arg. 0;
}

pub kernel-IsLawful : IsLawful kernel
kernel-IsLawful = record {
  accept4_within = λ w fd sockaddr len_p flags a apart. refl;
  recvfrom_within = λ w fd buf len flags sockaddr len_p a apart addr_apart. ground arith;
  epoll_wait_within = λ w epfd events maxevents timeout a apart. ground arith;
}

abbrev idle : World
idle = record { ram = zeroes; addr_limit = 7; log = [] }

-- The module receives 16 bytes at 100.
abbrev receives : M ℕ
receives = Calls.recvfrom kernel one_page 3 100 16 0 0 0

enters_recvfrom :
    enter kernel one_page HostFn.recvfrom (3 ∷ 100 ∷ 16 ∷ 0 ∷ 0 ∷ 0 ∷ []) ≡ some receives
unfolding enter
enters_recvfrom = refl

received : (receives idle).1.ram 1048676 ≡ 2
unfolding Calls.recvfrom vmctx_get_memory_slice
received = refl

net_sandboxed_example : (receives idle).1.ram 1114112 ≡ 0
net_sandboxed_example =
    net_sandboxed kernel one_page HostFn.recvfrom (3 ∷ 100 ∷ 16 ∷ 0 ∷ 0 ∷ 0 ∷ []) receives idle
      1114112 kernel-IsLawful one_page-IsPlaced enters_recvfrom refl

-- The module binds a socket to an address of 16 bytes at 100.
abbrev binds : M ℕ
binds = Calls.bind kernel one_page 3 100 16

enters_bind : enter kernel one_page HostFn.bind (3 ∷ 100 ∷ 16 ∷ []) ≡ some binds
unfolding enter
enters_bind = refl

net_restores_example : IsRestored 4099 idle (binds idle).1
net_restores_example =
    net_restores kernel one_page HostFn.bind (3 ∷ 100 ∷ 16 ∷ []) binds idle 4099 (omega arith)
      enters_bind

-- Without a free descriptor the new socket is lost.
lost : sockets_made (Calls.socket kernel 2 1 0 idle).1.log ≡ 5000 ∷ []
unfolding Calls.socket
lost = refl

socket_leak_example :
    IsBalanced fds_reserved fds_settled (neg 24) [] (Calls.socket kernel 2 1 0 idle).1.log
    × (((is_neg 0 ≡ false)
          × (is_neg (neg 24) ≡ true)
          × ((Calls.socket kernel 2 1 0 idle).0 ≡ neg 24)
          × (sockets_made (Calls.socket kernel 2 1 0 idle).1.log ≡ 5000 ∷ [])
          × (sockets_given (Calls.socket kernel 2 1 0 idle).1.log ≡ []))
        ⊎ (((is_neg 0 ≡ true) ⊎ (is_neg (neg 24) ≡ false))
            × IsBalanced sockets_made sockets_given 5000 [] (Calls.socket kernel 2 1 0 idle).1.log))
socket_leak_example = socket_leak kernel 2 1 0 idle
