-- ===== src/Uapi.antt =====
-- uapi.c: the character device through which a user process loads a module and reaches its memory.
pub mod Session
pub mod Lifetime
pub mod Transfer
pub mod Device
pub mod Run
pub mod Ioctl
