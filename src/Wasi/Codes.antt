-- ===== src/Wasi/Codes.antt =====
-- wasi/def.h: the error codes that wasi/ext.c returns, and the layout of the structures that it
-- reads and writes in the linear memory.
use kernel_wasm.Base.{ℕ}

-- `__WASI_ESUCCESS` … `__WASI_EPIPE`.
abbrev pub esuccess : ℕ
esuccess = 0

abbrev pub ebadf : ℕ
ebadf = 8

abbrev pub efault : ℕ
efault = 21

abbrev pub einval : ℕ
einval = 28

abbrev pub epipe : ℕ
epipe = 64

-- `__wasi_prestat_t`: its size and the offset of `u.dir.pr_name_len`.
abbrev pub prestat_size : ℕ
prestat_size = 8

abbrev pub pr_name_len_offset : ℕ
pr_name_len_offset = 4

-- `__wasi_ciovec_t`: its size and the offset of `buf_len`; `buf` is at 0.
abbrev pub ciovec_size : ℕ
ciovec_size = 8

abbrev pub buf_len_offset : ℕ
buf_len_offset = 4

-- `sizeof(__wasi_filesize_t)`.
abbrev pub filesize_size : ℕ
filesize_size = 8
