-- ===== src/Wasi/Io/Confined.antt =====
-- `fd_write` and `fd_read` stay inside the sandbox.
use kernel_wasm.Base.{
  ℕ, zero, suc, ◌+◌, ◌*◌, ◌^◌, ◌<◌, ◌≡◌, refl, ◌≢◌, inl, inr, false, arith, ◌==◌, Bool-cases,
  get_word, put_word,
}
use kernel_wasm.Vm.Context.{Vmctx, vmctx_get_memory_slice}
use kernel_wasm.Vm.Slice.{IsPlaced, inside, get_memory_slice_lem}
use kernel_wasm.Wasi.Host.{Files, World, IsLawful, store32, fget}
use kernel_wasm.Wasi.Io.{Direction, transfer, account, iov_round, iov_loop, fd_transfer}

get_word-lt : (m : ℕ → ℕ) (p : ℕ) → get_word m p < 2 ^ 32
unfolding get_word
get_word-lt m p = omega arith

module _ (ctx : Vmctx) (placed : IsPlaced ctx) (a : ℕ) (out : inside ctx a ≡ false) (os : Files)
    (lawful : IsLawful os) where
  transfer-Confined :
      (d : Direction) (f offset n pos : ℕ) (w : World)
      → n < 2 ^ 32
      → vmctx_get_memory_slice ctx offset n ≢ 0
      → (transfer os ctx d f (vmctx_get_memory_slice ctx offset n) n pos w).1.ram a ≡ w.ram a
  transfer-Confined Direction.writing f offset n pos w small granted = refl
  transfer-Confined Direction.reading f offset n pos w small granted =
      lawful.within w f (vmctx_get_memory_slice ctx offset n) n pos a
        (ground (arith, get_memory_slice_lem ctx offset n placed))

  module _ (d : Direction) (f iovs count : ℕ)
      (granted : vmctx_get_memory_slice ctx count 4 ≢ 0) where
    abbrev count_p : ℕ
    count_p = vmctx_get_memory_slice ctx count 4

    account-Confined :
        (ret pos : ℕ) (w : World) → (account os ctx f count_p ret pos w).1.ram a ≡ w.ram a
    unfolding account put_word
    account-Confined ret pos w = ground (arith, get_memory_slice_lem ctx count 4 placed)

    iov_round-Confined :
        (i : ℕ) (w : World) → (iov_round os ctx d f iovs count_p i w).1.ram a ≡ w.ram a
    unfolding iov_round
    iov_round-Confined i w =
        let iov = vmctx_get_memory_slice ctx (iovs + 8 * i) 8 in
        let offset = get_word w.ram iov in
        let n = get_word w.ram (iov + 4) in
        let buf = vmctx_get_memory_slice ctx offset n in
        let moved = transfer os ctx d f buf n (w.f_pos f) w in
        ground (
          arith,
          transfer-Confined d f offset n (w.f_pos f) w (get_word-lt w.ram (iov + 4)),
          account-Confined moved.0.0 moved.0.1 moved.1,
        )

    iov_loop-Confined :
        (left i : ℕ) (w : World) → (iov_loop os ctx d f iovs count_p left i w).1.ram a ≡ w.ram a
    unfolding iov_loop
    iov_loop-Confined zero i w = refl
    iov_loop-Confined (suc left) i w = ground (
      arith,
      iov_round-Confined i w,
      iov_loop-Confined left (i + 1) (iov_round os ctx d f iovs count_p i w).1,
    )

  pub fd_transfer-Confined :
      (d : Direction) (fd iovs n count : ℕ) (w : World)
      → (fd_transfer os ctx d fd iovs n count w).1.ram a ≡ w.ram a
  unfolding fd_transfer put_word
  fd_transfer-Confined d fd iovs n count w =
      elim (Bool-cases (vmctx_get_memory_slice ctx count 4 == 0)) [
        | inl none_given ↦ rw (none_given)
        | inr given ↦
            let granted : vmctx_get_memory_slice ctx count 4 ≢ 0 = ground arith in
            let w₁ = (store32 (vmctx_get_memory_slice ctx count 4) 0 w).1 in
            let f = fget os fd w₁ in
            ground (
              arith,
              get_memory_slice_lem ctx count 4 placed,
              iov_loop-Confined d f.0 iovs count granted n 0 f.1,
            )
      ]
