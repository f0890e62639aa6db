-- ===== src/Wasi/Io.antt =====
-- wasi/ext.c: `__wasi_fd_write` and `__wasi_fd_read`. A loop recurs on the rounds left, with `i`
-- the index of the source's loop.
pub mod Confined
use kernel_wasm.Base.{
  ℕ, zero, suc, ◌+◌, ◌*◌, Option, none, some, ◌==◌, if◌then◌else◌, u32, is_neg, pure, ◌>>=◌, ◌>>◌,
}
use kernel_wasm.Vm.Context.{Vmctx, vmctx_get_memory_slice}
use kernel_wasm.Wasi.Codes.{esuccess, ebadf, efault, epipe, ciovec_size, buf_len_offset}
use kernel_wasm.Wasi.Host.{
  Files, M, store32, load32, file_pos_read, file_pos_write, fget, fput, kernel_write, kernel_read,
}

-- Which way the bytes go.
pub data Direction : Type 0 where
  writing reading : Direction

module _ (os : Files) (ctx : Vmctx) where
  abbrev slice : (offset len : ℕ) → ℕ
  slice = vmctx_get_memory_slice ctx

  -- The call that transfers the bytes of one buffer.
  abbrev pub transfer : Direction → (file buf len pos : ℕ) → M (ℕ × ℕ)
  transfer Direction.writing = kernel_write os
  transfer Direction.reading = kernel_read os

  -- `fput(f); return err;`.
  abbrev pub give_up : (file err : ℕ) → M ℕ
  give_up f err = do fput os f; pure err

  -- The end of a round, after a transfer without error: the count in the memory grows and the
  -- file's position moves.
  unfoldable pub account : (file count_p ret pos : ℕ) → M (Unit {0})
  account f count_p ret pos = do
    n ← load32 count_p
    store32 count_p (u32 (n + ret))
    file_pos_write f pos

  -- One round of the loop over the vector: `none` to go on, or the error that ends it.
  unfoldable pub iov_round : Direction → (file iovs count_p i : ℕ) → M (Option ℕ)
  unfolding account
  iov_round d f iovs count_p i =
      let iov = slice (iovs + ciovec_size * i) ciovec_size in
      if iov == 0 then pure (some efault) else do
        buf_offset ← load32 iov
        buf_len ← load32 (iov + buf_len_offset)
        let buf = slice buf_offset buf_len
        if buf == 0 then pure (some efault) else do
          pos ← file_pos_read f
          (ret, pos') ← transfer d f buf buf_len pos
          if is_neg ret then pure (some epipe) else do account f count_p ret pos'; pure none

  -- The loop, and the `fput` before each return.
  unfoldable pub iov_loop : Direction → (file iovs count_p : ℕ) → (left i : ℕ) → M ℕ
  unfolding iov_round
  iov_loop d f iovs count_p zero i = give_up f esuccess
  iov_loop d f iovs count_p (suc left) i = do
    r ← iov_round d f iovs count_p i
    elim r [ some err ↦ give_up f err | none ↦ iov_loop d f iovs count_p left (i + 1) ]

  -- `__wasi_fd_write` and `__wasi_fd_read`, which differ in the transfer alone.
  unfoldable pub fd_transfer : Direction → (fd iovs iovs_len count : ℕ) → M ℕ
  unfolding iov_loop
  fd_transfer d fd iovs iovs_len count =
      let count_p = slice count 4 in
      if count_p == 0 then pure efault else do
        store32 count_p 0
        f ← fget os fd
        if f == 0 then pure ebadf else iov_loop d f iovs count_p iovs_len 0

  unfoldable pub fd_write : (fd iovs iovs_len nwritten : ℕ) → M ℕ
  unfolding fd_transfer
  fd_write = fd_transfer Direction.writing

  unfoldable pub fd_read : (fd iovs iovs_len nread : ℕ) → M ℕ
  unfolding fd_transfer
  fd_read = fd_transfer Direction.reading
