-- ===== src/Net/Resources.antt =====
-- networking/ext.c: what each call takes and gives back: the address limit of the thread, references
-- to open files, the socket and the descriptor that `__net_socket` makes.
use kernel_wasm.Base.{
  ℕ, ◌+◌, ◌≡◌, ◌≢◌, ◌⊎◌, true, false, Option, none, some, List, [], ◌∷◌, arith, ◌==◌, if◌then◌else◌,
  is_neg,
}
use kernel_wasm.Vm.Context.{Vmctx}
use kernel_wasm.Net.Calls
use kernel_wasm.Net.Host.{Event, Kernel, World, M}
use kernel_wasm.Net.Table.{
  HostFn, socket, bind, listen, accept4, sendto, recvfrom, eventfd_sem, epoll_create, epoll_ctl,
  epoll_wait, fcntl, enter,
}

-- How often `fget` has returned the file.
abbrev pub gets : (file : ℕ) → List Event → ℕ
gets file [] = 0
gets file (Event.got f ∷ log) = (if f == file then 1 else 0) + gets file log
gets file (_ ∷ log) = gets file log

-- How often `fput` was given the file.
abbrev pub puts : (file : ℕ) → List Event → ℕ
puts file [] = 0
puts file (Event.put f ∷ log) = (if f == file then 1 else 0) + puts file log
puts file (_ ∷ log) = puts file log

-- The thread's address limit is what it was, and the file was given back as often as taken.
abbrev pub IsRestored : (file : ℕ) → World → World → Type 0
IsRestored file w w' =
    (w'.addr_limit ≡ w.addr_limit)
    × (gets file w'.log + puts file w.log ≡ puts file w'.log + gets file w.log)

module _ (os : Kernel) (ctx : Vmctx) (file : ℕ) (used : file ≢ 0) where
  abbrev Restores : Option (M ℕ) → Type 0
  Restores none = Unit
  Restores (some m) = (w : World) → IsRestored file w (m w).1

  enter-Restores : (fn : HostFn) (args : List ℕ) → Restores (enter os ctx fn args)
  unfolding enter Calls.socket Calls.bind Calls.listen Calls.accept4 Calls.sendto Calls.recvfrom
      Calls.eventfd_sem Calls.epoll_create Calls.epoll_ctl Calls.epoll_wait Calls.fcntl
  enter-Restores socket (family ∷ type ∷ proto ∷ []) = λ w. ground arith
  enter-Restores bind (fd ∷ p ∷ n ∷ []) = λ w. ground arith
  enter-Restores listen (fd ∷ backlog ∷ []) = λ w. ground arith
  enter-Restores accept4 (fd ∷ p ∷ q ∷ flags ∷ []) = λ w. ground arith
  enter-Restores sendto (fd ∷ buf ∷ n ∷ flags ∷ p ∷ m ∷ []) = λ w. ground arith
  enter-Restores recvfrom (fd ∷ buf ∷ n ∷ flags ∷ p ∷ q ∷ []) = λ w. ground arith
  enter-Restores eventfd_sem (initial ∷ []) = λ w. ground arith
  enter-Restores epoll_create [] = λ w. ground arith
  enter-Restores epoll_ctl (epfd ∷ op ∷ fd ∷ p ∷ []) = λ w. ground arith
  enter-Restores epoll_wait (epfd ∷ p ∷ n ∷ timeout ∷ []) = λ w. ground arith
  enter-Restores fcntl (fd ∷ cmd ∷ arg ∷ []) = λ w. ground arith
  enter-Restores _ _ = tt

-- Whatever function of networking/ext.c a module calls, on every path the thread leaves with the
-- address limit it came with, and each open file was given to `fput` as often as `fget` returned it.
pub net_restores :
    (os : Kernel) (ctx : Vmctx) (fn : HostFn) (args : List ℕ) (m : M ℕ) (w : World) (file : ℕ)
    → file ≢ 0
    → enter os ctx fn args ≡ some m
    → IsRestored file w (m w).1
net_restores os ctx fn args m w file used e = (rw e at (enter-Restores os ctx file used fn args)) w

-- The sockets that were made, and those that were released or given to a file, the last one first.
abbrev pub sockets_made : List Event → List ℕ
sockets_made [] = []
sockets_made (Event.created sock ∷ log) = sock ∷ sockets_made log
sockets_made (_ ∷ log) = sockets_made log

abbrev pub sockets_given : List Event → List ℕ
sockets_given [] = []
sockets_given (Event.released sock ∷ log) = sock ∷ sockets_given log
sockets_given (Event.attached sock _ ∷ log) = sock ∷ sockets_given log
sockets_given (_ ∷ log) = sockets_given log

-- The descriptors that were reserved, and those that were given back or installed.
abbrev pub fds_reserved : List Event → List ℕ
fds_reserved [] = []
fds_reserved (Event.reserved fd ∷ log) = fd ∷ fds_reserved log
fds_reserved (_ ∷ log) = fds_reserved log

abbrev pub fds_settled : List Event → List ℕ
fds_settled [] = []
fds_settled (Event.unreserved fd ∷ log) = fd ∷ fds_settled log
fds_settled (Event.installed fd _ ∷ log) = fd ∷ fds_settled log
fds_settled (_ ∷ log) = fds_settled log

-- Between the two logs nothing was taken and nothing given back, or the one thing was, once each.
abbrev pub IsBalanced : (taken given : List Event → List ℕ) → ℕ → List Event → List Event → Type 0
IsBalanced taken given x log log' =
    ((taken log' ≡ taken log) × (given log' ≡ given log))
    ⊎ ((taken log' ≡ x ∷ taken log) × (given log' ≡ x ∷ given log))

-- The world in which `__net_socket` asks for a descriptor.
abbrev pub socket_made : Kernel → (family type proto : ℕ) → World → World
socket_made os family type proto w = record w {
  log = Event.created (os.sock_create_kern w family type proto).1 ∷ w.log;
}

-- `__net_socket` settles a descriptor that it reserves, once, on every path. Where `sock_create_kern`
-- makes a socket and `get_unused_fd_flags` then fails, it returns that failure and the socket is lost:
-- neither released nor given to a file. On every other path it makes no socket, or it releases the one
-- that it made or gives it to a file, once.
pub socket_leak :
    (os : Kernel) (family type proto : ℕ) (w : World)
    → IsBalanced fds_reserved fds_settled
        (os.get_unused_fd_flags (socket_made os family type proto w))
        w.log
        (Calls.socket os family type proto w).1.log
      × (((is_neg (os.sock_create_kern w family type proto).0 ≡ false)
            × (is_neg (os.get_unused_fd_flags (socket_made os family type proto w)) ≡ true)
            × ((Calls.socket os family type proto w).0
                ≡ os.get_unused_fd_flags (socket_made os family type proto w))
            × (sockets_made (Calls.socket os family type proto w).1.log
                ≡ (os.sock_create_kern w family type proto).1 ∷ sockets_made w.log)
            × (sockets_given (Calls.socket os family type proto w).1.log ≡ sockets_given w.log))
          ⊎ (((is_neg (os.sock_create_kern w family type proto).0 ≡ true)
                ⊎ (is_neg (os.get_unused_fd_flags (socket_made os family type proto w)) ≡ false))
              × IsBalanced sockets_made sockets_given
                  (os.sock_create_kern w family type proto).1
                  w.log
                  (Calls.socket os family type proto w).1.log))
unfolding Calls.socket
socket_leak os family type proto w = ground arith
