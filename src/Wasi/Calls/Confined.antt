-- ===== src/Wasi/Calls/Confined.antt =====
-- The host functions of wasi/ext.c stay inside the sandbox: no store reaches an address outside the
-- linear memory.
use kernel_wasm.Base.{ℕ, ◌+◌, ◌<◌, ◌≡◌, ◌≢◌, false, ◌==◌, arith, put_word, u32}
use kernel_wasm.Vm.Context.{Vmctx, vmctx_get_memory_slice}
use kernel_wasm.Vm.Slice.{IsPlaced, inside, get_memory_slice_lem}
use kernel_wasm.Wasi.Host.{Files, World}
use kernel_wasm.Wasi.Calls.{fd_prestat_get, fd_prestat_dir_name, put_sizes, args_get, fd_seek}

module _ (ctx : Vmctx) (placed : IsPlaced ctx) (a : ℕ) (out : inside ctx a ≡ false) where
  -- A granted slice of `n` bytes does not hold the address `a`.
  pub slice_misses :
      (offset n i : ℕ)
      → vmctx_get_memory_slice ctx offset n ≢ 0
      → i < u32 n
      → (a == vmctx_get_memory_slice ctx offset n + i) ≡ false
  slice_misses offset n i granted lt = ground (arith, get_memory_slice_lem ctx offset n placed)

  pub put_word_misses :
      (m : ℕ → ℕ) (offset n i v : ℕ)
      → vmctx_get_memory_slice ctx offset n ≢ 0
      → i + 3 < u32 n
      → put_word m (vmctx_get_memory_slice ctx offset n + i) v a ≡ m a
  unfolding put_word
  put_word_misses m offset n i v granted lt =
      ground (arith, get_memory_slice_lem ctx offset n placed)

  pub fd_prestat_get-Confined :
      (os : Files) (fd p : ℕ) (w : World) → (fd_prestat_get ctx os fd p w).1.ram a ≡ w.ram a
  unfolding fd_prestat_get
  fd_prestat_get-Confined os fd p w = ground (arith, put_word_misses w.ram p 8 4 4)

  pub fd_prestat_dir_name-Confined :
      (fd p n : ℕ) (w : World) → (fd_prestat_dir_name ctx fd p n w).1.ram a ≡ w.ram a
  unfolding fd_prestat_dir_name
  fd_prestat_dir_name-Confined fd p n w = ground (arith, get_memory_slice_lem ctx p n placed)

  pub put_sizes-Confined : (p q n m : ℕ) (w : World) → (put_sizes ctx p q n m w).1.ram a ≡ w.ram a
  unfolding put_sizes put_word
  put_sizes-Confined p q n m w =
      ground (arith, get_memory_slice_lem ctx p 4 placed, get_memory_slice_lem ctx q 4 placed)

  pub args_get-Confined : (p q : ℕ) (w : World) → (args_get ctx p q w).1.ram a ≡ w.ram a
  unfolding args_get put_word
  args_get-Confined p q w =
      ground (arith, get_memory_slice_lem ctx p 4 placed, get_memory_slice_lem ctx q 5 placed)

  pub fd_seek-Confined : (fd o h p : ℕ) (w : World) → (fd_seek ctx fd o h p w).1.ram a ≡ w.ram a
  unfolding fd_seek put_word
  fd_seek-Confined fd o h p w = ground (arith, get_memory_slice_lem ctx p 8 placed)
