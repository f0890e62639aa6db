-- ===== src/Wasi/Counts.antt =====
-- What a successful `fd_write` of wasi/ext.c has done: one transfer for each element of the vector, and
-- the sum of their results stored for the module.
use kernel_wasm.Base.{
  ℕ, zero, suc, ◌+◌, ◌*◌, ◌≡◌, refl, ◌≢◌, none, some, List, [], ◌∷◌, arith, put_word, get_word, u32,
}
use kernel_wasm.Vm.Context.{Vmctx, vmctx_get_memory_slice}
use kernel_wasm.Wasi.Codes.{esuccess}
use kernel_wasm.Wasi.Io.{Direction, iov_round, iov_loop, account, fd_transfer, fd_write}
use kernel_wasm.Wasi.Host.{Event, Files, World, store32, fget}

-- How many transfers the log holds, and the sum of what they returned.
abbrev pub transfers : List Event → ℕ
transfers [] = 0
transfers (Event.wrote f buf n pos ret ∷ log) = suc (transfers log)
transfers (Event.read f buf n pos ret ∷ log) = suc (transfers log)
transfers (_ ∷ log) = transfers log

abbrev pub moved : List Event → ℕ
moved [] = 0
moved (Event.wrote f buf n pos ret ∷ log) = ret + moved log
moved (Event.read f buf n pos ret ∷ log) = ret + moved log
moved (_ ∷ log) = moved log

get_word-put_word : (m : ℕ → ℕ) (p v : ℕ) → get_word (put_word m p v) p ≡ u32 v
unfolding get_word put_word
get_word-put_word m p v = ground arith

module _ (os : Files) (ctx : Vmctx) (f iovs p : ℕ) where
  round_counts :
      (i : ℕ) (w : World)
      → (iov_round os ctx Direction.writing f iovs p i w).0 ≡ none
      → (transfers (iov_round os ctx Direction.writing f iovs p i w).1.log ≡ suc (transfers w.log))
        × (u32 (get_word (iov_round os ctx Direction.writing f iovs p i w).1.ram p + moved w.log)
            ≡ u32
                (get_word w.ram p + moved (iov_round os ctx Direction.writing f iovs p i w).1.log))
  unfolding iov_round account
  round_counts i w h =
      let iov = vmctx_get_memory_slice ctx (iovs + 8 * i) 8 in
      let n = get_word w.ram (iov + 4) in
      let buf = vmctx_get_memory_slice ctx (get_word w.ram iov) n in
      let ret = u32 (os.kernel_write w f buf n (w.f_pos f)).0 in
      ground (arith, get_word-put_word w.ram p (u32 (get_word w.ram p + ret)))

  round_error :
      (i : ℕ) (w : World) (err : ℕ)
      → (iov_round os ctx Direction.writing f iovs p i w).0 ≡ some err
      → err ≢ 0
  unfolding iov_round account
  round_error i w err h = ground arith

  loop_counts :
      (left i : ℕ) (w : World)
      → (iov_loop os ctx Direction.writing f iovs p left i w).0 ≡ 0
      → (transfers (iov_loop os ctx Direction.writing f iovs p left i w).1.log
          ≡ left + transfers w.log)
        × (u32
              (get_word (iov_loop os ctx Direction.writing f iovs p left i w).1.ram p + moved w.log)
            ≡ u32 (
                get_word w.ram p
                + moved (iov_loop os ctx Direction.writing f iovs p left i w).1.log))
  unfolding iov_loop
  loop_counts zero i w h = (omega arith, refl)
  loop_counts (suc left) i w h =
      let r = iov_round os ctx Direction.writing f iovs p i w in
      ground (arith, round_counts i w, round_error i w, loop_counts left (i + 1) r.1)

-- When `fd_write` succeeds it has made one transfer for each of the `n` elements of the vector, and the
-- `uint32_t` at `nwritten` is the sum of what those transfers returned.
pub fd_write_counts :
    (os : Files) (ctx : Vmctx) (fd iovs n nwritten : ℕ) (w : World)
    → (fd_write os ctx fd iovs n nwritten w).0 ≡ esuccess
    → (transfers (fd_write os ctx fd iovs n nwritten w).1.log ≡ n + transfers w.log)
      × (u32 (
            get_word
              (fd_write os ctx fd iovs n nwritten w).1.ram
              (vmctx_get_memory_slice ctx nwritten 4)
            + moved w.log)
          ≡ u32 (moved (fd_write os ctx fd iovs n nwritten w).1.log))
unfolding fd_write fd_transfer
fd_write_counts os ctx fd iovs n nwritten w h =
    let p = vmctx_get_memory_slice ctx nwritten 4 in
    let f = fget os fd (store32 p 0 w).1 in
    ground (arith, get_word-put_word w.ram p 0, loop_counts os ctx f.0 iovs p n 0 f.1)
