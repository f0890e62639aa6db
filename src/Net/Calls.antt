-- ===== src/Net/Calls.antt =====
-- networking/ext.c: the host functions. Arguments of type `int` are bit patterns.
use kernel_wasm.Base.{
  ℕ, ◌*◌, u32, ◌∷◌, not, ◌&&◌, ◌==◌, if◌then◌else◌, neg, is_neg, get_word, pure, ◌>>=◌, ◌>>◌,
}
use kernel_wasm.Vm.Context.{Vmctx, vmctx_get_memory_slice}
use kernel_wasm.Net.Host.{
  Kernel, Event, M, emit, call, call_filling, with_kernel_ds, epoll_event_size,
}

-- `errno` values, and the `fcntl` commands that are let through.
abbrev pub eperm : ℕ
eperm = 1

abbrev pub ebadf : ℕ
ebadf = 9

abbrev pub efault : ℕ
efault = 14

abbrev pub einval : ℕ
einval = 22

abbrev pub enotsock : ℕ
enotsock = 88

abbrev pub f_getfl : ℕ
f_getfl = 3

abbrev pub f_setfl : ℕ
f_setfl = 4

module _ (os : Kernel) where
  -- `__net_socket`.
  unfoldable pub socket : (family type proto : ℕ) → M ℕ
  socket family type proto w =
      let (err, sock) = os.sock_create_kern w family type proto in
      if is_neg err
      then (err, w)
      else let w₁ = record w { log = Event.created sock ∷ w.log } in
        let fd = os.get_unused_fd_flags w₁ in
        if is_neg fd
        then (fd, w₁)
        else let w₂ = record w₁ { log = Event.reserved fd ∷ w₁.log } in
          let f = os.sock_alloc_file w₂ sock in
          if os.is_err f
          then (
            os.ptr_err f,
            record w₂ { log = Event.released sock ∷ Event.unreserved fd ∷ w₂.log },
          )
          else (fd, record w₂ { log = Event.installed fd f ∷ Event.attached sock f ∷ w₂.log })

  abbrev fget : (fd : ℕ) → M ℕ
  fget fd w = let f = os.fget w fd in (f, record w { log = Event.got f ∷ w.log })

  -- `fput(file); return ret;`.
  abbrev put_and : (file ret : ℕ) → M ℕ
  put_and f ret = do emit (Event.put f); pure ret

  module _ (ctx : Vmctx) where
    abbrev slice : (offset len : ℕ) → ℕ
    slice = vmctx_get_memory_slice ctx

    -- `__net_bind`.
    unfoldable pub bind : (fd sockaddr sockaddr_len : ℕ) → M ℕ
    bind fd sockaddr sockaddr_len = do
      f ← fget fd
      if f == 0 then pure (neg ebadf) else λ w.
          let sock = os.sock_from_file w f in
          let sa = slice sockaddr sockaddr_len in
          if sock == 0
          then put_and f (neg enotsock) w
          else if not (sockaddr == 0)
          then (if sa == 0
              then put_and f (neg efault) w
              else put_and f (os.bind w sock sa sockaddr_len) w)
          else if not (sockaddr_len == 0)
          then put_and f (neg einval) w
          else put_and f (os.bind w sock 0 sockaddr_len) w

    -- `__net_listen`.
    unfoldable pub listen : (fd backlog : ℕ) → M ℕ
    listen fd backlog = do
      f ← fget fd
      if f == 0 then pure (neg ebadf) else λ w.
          let sock = os.sock_from_file w f in
          if sock == 0 then put_and f (neg enotsock) w else put_and f (os.listen w sock backlog) w

    -- `__net_accept4`.
    unfoldable pub accept4 : (fd sockaddr sockaddr_len_vptr flags : ℕ) → M ℕ
    accept4 fd sockaddr sockaddr_len_vptr flags =
        if sockaddr == 0
        then with_kernel_ds os (call_filling (λ w. os.sys_accept4 w fd 0 0 flags))
        else λ w.
            let len_p = slice sockaddr_len_vptr 4 in
            if len_p == 0
            then (neg efault, w)
            else let sa = slice sockaddr (get_word w.ram len_p) in
              if sa == 0
              then (neg efault, w)
              else with_kernel_ds os (call_filling (λ w'. os.sys_accept4 w' fd sa len_p flags)) w

    -- `__net_sendto`.
    unfoldable pub sendto : (fd buf len flags addr addr_len : ℕ) → M ℕ
    sendto fd buf len flags addr addr_len =
        let buf_p = slice buf len in
        let sa = slice addr addr_len in
        if buf_p == 0
        then pure (neg efault)
        else if addr == 0
        then with_kernel_ds os (call (λ w. os.sys_sendto w fd buf_p len flags 0 addr_len))
        else if sa == 0
        then pure (neg efault)
        else with_kernel_ds os (call (λ w. os.sys_sendto w fd buf_p len flags sa addr_len))

    -- `__net_recvfrom`.
    unfoldable pub recvfrom : (fd buf len flags addr addr_len_vptr : ℕ) → M ℕ
    recvfrom fd buf len flags addr addr_len_vptr =
        let buf_p = slice buf len in
        if buf_p == 0
        then pure (neg efault)
        else if addr == 0
        then with_kernel_ds os (call_filling (λ w. os.sys_recvfrom w fd buf_p (u32 len) flags 0 0))
        else λ w.
            let len_p = slice addr_len_vptr 4 in
            if len_p == 0
            then (neg efault, w)
            else let sa = slice addr (get_word w.ram len_p) in
              if sa == 0
              then (neg efault, w)
              else with_kernel_ds os
                  (call_filling (λ w'. os.sys_recvfrom w' fd buf_p (u32 len) flags sa len_p)) w

    -- `__net_eventfd_sem` and `__net_epoll_create`.
    unfoldable pub eventfd_sem : (initial : ℕ) → M ℕ
    eventfd_sem initial = call (λ w. os.sys_eventfd2 w initial 1)

    unfoldable pub epoll_create : M ℕ
    epoll_create = call (λ w. os.sys_epoll_create w 42)

    -- `__net_epoll_ctl`.
    unfoldable pub epoll_ctl : (epfd op fd event : ℕ) → M ℕ
    epoll_ctl epfd op fd event =
        let event_p = slice event epoll_event_size in
        if event == 0
        then with_kernel_ds os (call (λ w. os.sys_epoll_ctl w epfd op fd 0))
        else if event_p == 0
        then pure (neg efault)
        else with_kernel_ds os (call (λ w. os.sys_epoll_ctl w epfd op fd event_p))

    -- `__net_epoll_wait`. The product is an `unsigned long`, and the slice's length a `uint32_t`.
    unfoldable pub epoll_wait : (epfd events maxevents timeout : ℕ) → M ℕ
    epoll_wait epfd events maxevents timeout =
        let events_p = slice events (epoll_event_size * u32 maxevents) in
        if events_p == 0
        then pure (neg efault)
        else with_kernel_ds os
            (call_filling (λ w. os.sys_epoll_wait w epfd events_p maxevents timeout))

    -- `__net_fcntl`.
    unfoldable pub fcntl : (fd cmd arg : ℕ) → M ℕ
    fcntl fd cmd arg =
        if not (cmd == f_getfl) && not (cmd == f_setfl)
        then pure (neg eperm)
        else call (λ w. os.sys_fcntl w fd cmd arg)
