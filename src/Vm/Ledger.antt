-- ===== src/Vm/Ledger.antt =====
-- Which allocations an execution engine of vm.c holds, and the account that its life keeps of them.
pub mod Pages
pub mod Owned
pub mod Keeps
pub mod Stages
pub mod Cleanup
pub mod Life
