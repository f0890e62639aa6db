-- ===== src/Vm.antt =====
-- vm.h and vm.c: the execution engine of one module.
pub mod Context
pub mod Slice
pub mod Engine
pub mod Pages
pub mod Setup
pub mod Init
pub mod Load
pub mod Ledger
pub mod Grow
pub mod Triple
pub mod Sized
pub mod Linked
pub mod Stack
pub mod Written
pub mod Entered
pub mod Reads
pub mod Exec
pub mod Kallsyms
