-- ===== src/Wasi/Calls.antt =====
-- wasi/ext.c: the host functions other than `fd_write` and `fd_read`.
pub mod Confined
use kernel_wasm.Base.{ℕ, ◌+◌, ◌==◌, if◌then◌else◌, not, is_neg, pure, ◌>>=◌, ◌>>◌}
use kernel_wasm.Vm.Context.{Vmctx, vmctx_get_memory_slice}
use kernel_wasm.Wasi.Codes.{
  esuccess, ebadf, efault, einval, prestat_size, pr_name_len_offset, filesize_size,
}
use kernel_wasm.Wasi.Host.{Files, M, store8, store32, store64, fget, close_fd}

module _ (ctx : Vmctx) where
  abbrev slice : (offset len : ℕ) → ℕ
  slice = vmctx_get_memory_slice ctx

  -- `__wasi_fd_prestat_get`.
  unfoldable pub fd_prestat_get : Files → (fd out : ℕ) → M ℕ
  fd_prestat_get os fd out =
      let out_p = slice out prestat_size in
      if out_p == 0 then pure efault else do
        f ← fget os fd
        if f == 0 then pure ebadf else do store32 (out_p + pr_name_len_offset) 4; pure esuccess

  -- `__wasi_fd_prestat_dir_name`.
  unfoldable pub fd_prestat_dir_name : (fd path path_len : ℕ) → M ℕ
  fd_prestat_dir_name fd path path_len =
      if not (path_len == 4)
      then pure einval
      else let path_p = slice path path_len in
        if path_p == 0 then pure efault else do
          store8 path_p b'W'
          store8 (path_p + 1) b'A'
          store8 (path_p + 2) b'S'
          store8 (path_p + 3) b'M'
          pure esuccess

  -- The two halves of `__wasi_environ_sizes_get` and `__wasi_args_sizes_get`.
  unfoldable pub put_sizes : (count buf_size n m : ℕ) → M ℕ
  put_sizes count buf_size n m =
      let x = slice count 4 in
      if x == 0 then pure efault else do
        store32 x n
        let y = slice buf_size 4
        if y == 0 then pure efault else do store32 y m; pure esuccess

  -- `__wasi_environ_get`.
  unfoldable pub environ_get : (environ environ_buf : ℕ) → M ℕ
  environ_get environ environ_buf = pure esuccess

  -- `__wasi_environ_sizes_get`.
  unfoldable pub environ_sizes_get : (environ_count environ_buf_size : ℕ) → M ℕ
  unfolding put_sizes
  environ_sizes_get environ_count environ_buf_size = put_sizes environ_count environ_buf_size 0 0

  -- `__wasi_args_get`: one argument, "WASM".
  unfoldable pub args_get : (argv argv_buf : ℕ) → M ℕ
  args_get argv argv_buf =
      let pointer_vec = slice argv 4 in
      if pointer_vec == 0 then pure efault else do
        store32 pointer_vec argv_buf
        let argv_buf_p = slice argv_buf 5
        if argv_buf_p == 0 then pure efault else do
          store8 argv_buf_p b'W'
          store8 (argv_buf_p + 1) b'A'
          store8 (argv_buf_p + 2) b'S'
          store8 (argv_buf_p + 3) b'M'
          store8 (argv_buf_p + 4) 0
          pure esuccess

  -- `__wasi_args_sizes_get`.
  unfoldable pub args_sizes_get : (argc argv_buf_size : ℕ) → M ℕ
  unfolding put_sizes
  args_sizes_get argc argv_buf_size = put_sizes argc argv_buf_size 1 5

  -- `__wasi_fd_close`.
  unfoldable pub fd_close : Files → (fd : ℕ) → M ℕ
  fd_close os fd = do ret ← close_fd os fd; if is_neg ret then pure ebadf else pure esuccess

  -- `__wasi_fd_seek`, not implemented by the source beyond storing 0.
  unfoldable pub fd_seek : (fd offset whence newoffset : ℕ) → M ℕ
  fd_seek fd offset whence newoffset =
      let newoffset_p = slice newoffset filesize_size in
      if newoffset_p == 0 then pure efault else do store64 newoffset_p 0; pure esuccess

  -- `__wasi_random_get`.
  unfoldable pub random_get : (buf buf_len : ℕ) → M ℕ
  random_get buf buf_len = pure esuccess

  -- `__wasi_path_open`: only the slice of the path decides the result.
  unfoldable pub path_open : (path path_len : ℕ) → M ℕ
  path_open path path_len =
      let path_p = slice path path_len in if path_p == 0 then pure efault else pure einval

  -- `_fd_fdstat_get`, made by `GEN_POLYFILL_2`.
  unfoldable pub fd_fdstat_get : (a b : ℕ) → M ℕ
  fd_fdstat_get a b = pure 1
