-- ===== src/Wasi.antt =====
-- wasi/ext.c and wasi/def.h: the WASI host functions that a module may import.
pub mod Codes
pub mod Errno
pub mod Host
pub mod Calls
pub mod Io
pub mod Table
pub mod References
pub mod Counts
