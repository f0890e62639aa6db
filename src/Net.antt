-- ===== src/Net.antt =====
-- networking/ext.c: the socket and epoll functions that a module may import.
pub mod Host
pub mod Calls
pub mod Table
pub mod Sandbox
pub mod Resources
