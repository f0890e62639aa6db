-- ===== src/Net/Host.antt =====
-- What networking/ext.c works on: kernel memory, the address limit of the thread, and the calls into
-- the kernel, which is a parameter.
use kernel_wasm.Base.{
  ℕ, ◌+◌, ◌*◌, ◌≤◌, ◌<◌, ◌≡◌, ◌⊎◌, Bool, Ram, List, ◌∷◌, get_word, ◌>>=◌, ◌>>◌, pure,
}

-- What the functions take and give back. The last event stands first.
pub data Event : Type 0 where
  got : (file : ℕ) → Event  -- `fget` returned it
  put : (file : ℕ) → Event  -- `fput`
  created : (sock : ℕ) → Event  -- `sock_create_kern` made it
  released : (sock : ℕ) → Event  -- `sock_release`
  attached : (sock file : ℕ) → Event  -- `sock_alloc_file` made the file of the socket
  reserved : (fd : ℕ) → Event  -- `get_unused_fd_flags` returned it
  unreserved : (fd : ℕ) → Event  -- `put_unused_fd`
  installed : (fd file : ℕ) → Event  -- `fd_install`
  called : (addr_limit : ℕ) → Event  -- one of the system calls, under that limit

pub record World : Type 0 where
  pub ram : Ram
  pub addr_limit : ℕ
  pub log : List Event

-- The kernel's part; an `int` is a bit pattern. The calls that fill a buffer return the memory.
pub record Kernel : Type 0 where
  pub kernel_ds : ℕ
  pub is_err : (p : ℕ) → Bool
  pub ptr_err : (p : ℕ) → ℕ
  pub sock_create_kern : World → (family type proto : ℕ) → ℕ × ℕ
  pub get_unused_fd_flags : World → ℕ
  pub sock_alloc_file : World → (sock : ℕ) → ℕ
  pub fget : World → (fd : ℕ) → ℕ
  pub sock_from_file : World → (file : ℕ) → ℕ
  pub bind : World → (sock sockaddr len : ℕ) → ℕ
  pub listen : World → (sock backlog : ℕ) → ℕ
  pub sys_accept4 : World → (fd sockaddr len_p flags : ℕ) → ℕ × Ram
  pub sys_sendto : World → (fd buf len flags sockaddr addr_len : ℕ) → ℕ
  pub sys_recvfrom : World → (fd buf len flags sockaddr len_p : ℕ) → ℕ × Ram
  pub sys_eventfd2 : World → (count flags : ℕ) → ℕ
  pub sys_epoll_create : World → (size : ℕ) → ℕ
  pub sys_epoll_ctl : World → (epfd op fd event : ℕ) → ℕ
  pub sys_epoll_wait : World → (epfd events maxevents timeout : ℕ) → ℕ × Ram
  pub sys_fcntl : World → (fd cmd arg : ℕ) → ℕ

-- `a` is none of the `n` bytes at `p`.
abbrev pub Apart : (a p n : ℕ) → Type 0
Apart a p n = (a < p) ⊎ (p + n ≤ a)

-- `sizeof(struct epoll_event)` on x86-64, and the largest `maxevents` that `epoll_wait` takes.
abbrev pub epoll_event_size : ℕ
epoll_event_size = 12

abbrev pub ep_max_events : ℕ
ep_max_events = 178956970

-- The system calls write only to the buffers that their manual pages name: the address buffer up to
-- its length, the length itself, the data buffer, and the events; and `epoll_wait` writes nothing if
-- `maxevents` is above its limit.
pub record IsLawful (os : Kernel) : Type 0 where
  pub accept4_within :
      (w : World) (fd sockaddr len_p flags a : ℕ)
      → (sockaddr ≡ 0) ⊎ (Apart a sockaddr (get_word w.ram len_p) × Apart a len_p 4)
      → (os.sys_accept4 w fd sockaddr len_p flags).1 a ≡ w.ram a
  pub recvfrom_within :
      (w : World) (fd buf len flags sockaddr len_p a : ℕ)
      → Apart a buf len
      → (sockaddr ≡ 0) ⊎ (Apart a sockaddr (get_word w.ram len_p) × Apart a len_p 4)
      → (os.sys_recvfrom w fd buf len flags sockaddr len_p).1 a ≡ w.ram a
  pub epoll_wait_within :
      (w : World) (epfd events maxevents timeout a : ℕ)
      → (ep_max_events < maxevents) ⊎ Apart a events (epoll_event_size * maxevents)
      → (os.sys_epoll_wait w epfd events maxevents timeout).1 a ≡ w.ram a

abbrev pub M : Type 0 → Type 0
M A = World → A × World

abbrev pub emit : Event → M (Unit {0})
emit e w = (tt, record w { log = e ∷ w.log })

-- `get_fs` and `set_fs`.
abbrev pub get_fs : M ℕ
get_fs w = (w.addr_limit, w)

abbrev pub set_fs : (addr_limit : ℕ) → M (Unit {0})
set_fs limit w = (tt, record w { addr_limit = limit })

-- A system call with its result, and one that also fills a buffer.
abbrev pub call : (World → ℕ) → M ℕ
call f w = (f w, record w { log = Event.called w.addr_limit ∷ w.log })

abbrev pub call_filling : (World → ℕ × Ram) → M ℕ
call_filling f w =
    let r = f w in (r.0, record w { ram = r.1; log = Event.called w.addr_limit ∷ w.log })

module _ (os : Kernel) where
  -- The bracket `old_fs = get_fs(); set_fs(KERNEL_DS); …; set_fs(old_fs);`.
  abbrev pub with_kernel_ds : M ℕ → M ℕ
  with_kernel_ds m = do old_fs ← get_fs; set_fs os.kernel_ds; ret ← m; set_fs old_fs; pure ret
