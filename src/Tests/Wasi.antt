-- ===== src/Tests/Wasi.antt =====
-- The host functions of wasi/ext.c, run.
use kernel_wasm.Base.{
  ℕ, ◌+◌, ◌≡◌, refl, ◌⊎◌, arith, some, [], ◌∷◌, ltb, leb, ◌&&◌, if◌then◌else◌, u32, get_word,
  put_word,
}
use kernel_wasm.Vm.Context.{vmctx_get_memory_slice}
use kernel_wasm.Tests.Machine.{zeroes, one_page, one_page-IsPlaced}
use kernel_wasm.Wasi.Calls
use kernel_wasm.Wasi.Codes.{esuccess}
use kernel_wasm.Wasi.Counts.{transfers, moved, fd_write_counts}
use kernel_wasm.Wasi.Host.{Files, World, M, IsLawful}
use kernel_wasm.Wasi.Io.{fd_write, fd_read, fd_transfer, iov_loop, iov_round, account}
use kernel_wasm.Wasi.References.{gets, IsBalanced, IsKept, enter_references}
use kernel_wasm.Wasi.Table.{HostFn, Outcome, returned, enter}
use kernel_wasm.Wasi.Errno.Returned.{Ends, enter-errors}
use kernel_wasm.Wasi.Table.Sandbox.{enter_sandboxed}

-- Open files at 4096 + fd; everything is written, and a read gives ones.
abbrev pub files : Files
files = record {
  fget = λ w fd. 4096 + fd;
  kernel_write = λ w file buf len pos. (len, pos + len);
  kernel_read = λ w file buf len pos.
      (len, pos + len, λ a. if leb buf a && ltb a (buf + len) then 1 else w.ram a);
  close_fd = λ w fd. 0;
}

pub files-IsLawful : IsLawful files
files-IsLawful = record { within = λ w file buf len pos a apart. ground arith }

-- At 16 in the memory stands a vector of two buffers: 5 bytes at 100 and 7 bytes at 200.
abbrev vector : World
vector = record {
  ram =
      put_word (put_word (put_word (put_word zeroes 1048592 100) 1048596 5) 1048600 200) 1048604 7;
  f_pos = λ f. 0;
  log = [];
}

writes : (fd_write files one_page 1 16 2 64 vector).0 ≡ esuccess
unfolding fd_write fd_transfer iov_loop iov_round account vmctx_get_memory_slice get_word put_word
writes = refl

counted : get_word (fd_write files one_page 1 16 2 64 vector).1.ram 1048640 ≡ 12
unfolding fd_write fd_transfer iov_loop iov_round account vmctx_get_memory_slice get_word put_word
counted = refl

fd_write_counts_example :
    (transfers (fd_write files one_page 1 16 2 64 vector).1.log ≡ 2)
    × (u32 (
          get_word
            (fd_write files one_page 1 16 2 64 vector).1.ram
            (vmctx_get_memory_slice one_page 64 4)
          + 0)
        ≡ u32 (moved (fd_write files one_page 1 16 2 64 vector).1.log))
fd_write_counts_example = fd_write_counts files one_page 1 16 2 64 vector writes

-- The module calls `fd_read` of the same vector.
abbrev reads : M Outcome
reads w = let r = fd_read files one_page 0 16 2 64 w in (returned r.0, r.1)

enters : enter files one_page HostFn.fd_read (0 ∷ 16 ∷ 2 ∷ 64 ∷ []) ≡ some reads
unfolding enter
enters = refl

enter_sandboxed_example : (reads vector).1.ram 1114112 ≡ vector.ram 1114112
enter_sandboxed_example =
    enter_sandboxed files one_page HostFn.fd_read (0 ∷ 16 ∷ 2 ∷ 64 ∷ []) reads vector 1114112
      files-IsLawful one_page-IsPlaced enters refl

-- The module calls `fd_prestat_get`. After its success one reference more is taken than given back.
abbrev asks : M Outcome
asks w = let r = Calls.fd_prestat_get one_page files 3 64 w in (returned r.0, r.1)

asks_enters : enter files one_page HostFn.fd_prestat_get (3 ∷ 64 ∷ []) ≡ some asks
unfolding enter
asks_enters = refl

leaks : gets 4099 (asks vector).1.log ≡ 1
unfolding Calls.fd_prestat_get vmctx_get_memory_slice
leaks = refl

enter_references_example :
    IsBalanced 4099 vector (asks vector).1
    ⊎ ((HostFn.fd_prestat_get ≡ HostFn.fd_prestat_get)
        × ((asks vector).0 ≡ returned esuccess)
        × (kept : ℕ) × IsKept kept vector (asks vector).1)
enter_references_example =
    enter_references files one_page HostFn.fd_prestat_get (3 ∷ 64 ∷ []) asks vector 4099
      (omega arith) asks_enters

enter-errors_example : Ends HostFn.fd_read (reads vector).0
enter-errors_example =
    enter-errors files one_page HostFn.fd_read (0 ∷ 16 ∷ 2 ∷ 64 ∷ []) reads vector enters
