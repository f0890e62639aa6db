-- ===== src/Net/Sandbox.antt =====
-- networking/ext.c and the sandbox: which memory the system calls are let write.
use kernel_wasm.Base.{
  ℕ, ◌*◌, ◌^◌, ◌<◌, ◌≡◌, refl, ◌≢◌, false, Option, none, some, List, [], ◌∷◌, inl, arith, u32,
  get_word,
}
use kernel_wasm.Vm.Context.{Vmctx, vmctx_get_memory_slice}
use kernel_wasm.Vm.Slice.{IsPlaced, inside, get_memory_slice_lem}
use kernel_wasm.Net.Calls
use kernel_wasm.Net.Host.{Kernel, World, M, IsLawful, Apart, epoll_event_size}
use kernel_wasm.Net.Table.{
  HostFn, socket, bind, listen, accept4, sendto, recvfrom, eventfd_sem, epoll_create, epoll_ctl,
  epoll_wait, fcntl, enter,
}

module _ (os : Kernel) (lawful : IsLawful os) (ctx : Vmctx) (placed : IsPlaced ctx) (a : ℕ)
    (out : inside ctx a ≡ false) where
  get_word-lt : (m : ℕ → ℕ) (p : ℕ) → get_word m p < 2 ^ 32
  unfolding get_word
  get_word-lt m p = omega arith

  -- An address outside the memory is in no granted slice.
  slice-Apart :
      (offset n : ℕ)
      → vmctx_get_memory_slice ctx offset n ≢ 0
      → Apart a (vmctx_get_memory_slice ctx offset n) (u32 n)
  slice-Apart offset n granted = ground (arith, get_memory_slice_lem ctx offset n placed)

  accept4-Confined :
      (fd p q flags : ℕ) (w : World) → (Calls.accept4 os ctx fd p q flags w).1.ram a ≡ w.ram a
  unfolding Calls.accept4
  accept4-Confined fd p q flags w =
      let w₁ = record w { addr_limit = os.kernel_ds } in
      let q₄ = vmctx_get_memory_slice ctx q 4 in
      let sa = vmctx_get_memory_slice ctx p (get_word w.ram q₄) in
      ground (
        arith,
        lawful.accept4_within w₁ fd 0 0 flags a (inl refl),
        lawful.accept4_within w₁ fd sa q₄ flags a,
        slice-Apart q 4,
        slice-Apart p (get_word w.ram q₄),
        get_word-lt w.ram q₄,
      )

  recvfrom-Confined :
      (fd buf n flags p q : ℕ) (w : World)
      → (Calls.recvfrom os ctx fd buf n flags p q w).1.ram a ≡ w.ram a
  unfolding Calls.recvfrom
  recvfrom-Confined fd buf n flags p q w =
      let w₁ = record w { addr_limit = os.kernel_ds } in
      let b = vmctx_get_memory_slice ctx buf n in
      let q₄ = vmctx_get_memory_slice ctx q 4 in
      let sa = vmctx_get_memory_slice ctx p (get_word w.ram q₄) in
      ground (
        arith,
        λ (apart : Apart a b (u32 n)).
            lawful.recvfrom_within w₁ fd b (u32 n) flags 0 0 a apart (inl refl),
        lawful.recvfrom_within w₁ fd b (u32 n) flags sa q₄ a,
        slice-Apart buf n,
        slice-Apart q 4,
        slice-Apart p (get_word w.ram q₄),
        get_word-lt w.ram q₄,
      )

  epoll_wait-Confined :
      (epfd p n timeout : ℕ) (w : World)
      → (Calls.epoll_wait os ctx epfd p n timeout w).1.ram a ≡ w.ram a
  unfolding Calls.epoll_wait
  epoll_wait-Confined epfd p n timeout w =
      let w₁ = record w { addr_limit = os.kernel_ds } in
      let e = vmctx_get_memory_slice ctx p (epoll_event_size * u32 n) in
      ground (
        arith,
        lawful.epoll_wait_within w₁ epfd e n timeout a,
        slice-Apart p (epoll_event_size * u32 n),
      )

  -- The byte at `a` is what it was, whatever is entered.
  abbrev Spares : Option (M ℕ) → Type 0
  Spares none = Unit
  Spares (some m) = (w : World) → (m w).1.ram a ≡ w.ram a

  enter-Spares : (fn : HostFn) (args : List ℕ) → Spares (enter os ctx fn args)
  unfolding enter Calls.socket Calls.bind Calls.listen Calls.sendto Calls.eventfd_sem
      Calls.epoll_create Calls.epoll_ctl Calls.fcntl
  enter-Spares socket (family ∷ type ∷ proto ∷ []) = λ w. ground arith
  enter-Spares bind (fd ∷ p ∷ n ∷ []) = λ w. ground arith
  enter-Spares listen (fd ∷ backlog ∷ []) = λ w. ground arith
  enter-Spares accept4 (fd ∷ p ∷ q ∷ flags ∷ []) = accept4-Confined fd p q flags
  enter-Spares sendto (fd ∷ buf ∷ n ∷ flags ∷ p ∷ m ∷ []) = λ w. ground arith
  enter-Spares recvfrom (fd ∷ buf ∷ n ∷ flags ∷ p ∷ q ∷ []) = recvfrom-Confined fd buf n flags p q
  enter-Spares eventfd_sem (initial ∷ []) = λ w. refl
  enter-Spares epoll_create [] = λ w. refl
  enter-Spares epoll_ctl (epfd ∷ op ∷ fd ∷ p ∷ []) = λ w. ground arith
  enter-Spares epoll_wait (epfd ∷ p ∷ n ∷ timeout ∷ []) = epoll_wait-Confined epfd p n timeout
  enter-Spares fcntl (fd ∷ cmd ∷ arg ∷ []) = λ w. ground arith
  enter-Spares _ _ = tt

-- Whatever function of networking/ext.c a module calls and with whatever arguments, in a placed memory
-- and over a kernel whose system calls write only to the buffers they document, no byte outside the
-- module's linear memory changes.
pub net_sandboxed :
    (os : Kernel) (ctx : Vmctx) (fn : HostFn) (args : List ℕ) (m : M ℕ) (w : World) (a : ℕ)
    → IsLawful os
    → IsPlaced ctx
    → enter os ctx fn args ≡ some m
    → inside ctx a ≡ false
    → (m w).1.ram a ≡ w.ram a
net_sandboxed os ctx fn args m w a lawful placed e out =
    (rw e at (enter-Spares os lawful ctx placed a out fn args)) w
