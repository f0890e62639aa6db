-- ===== src/Tests.antt =====
-- Runs of the model on concrete inputs, and the theorems at such inputs.
pub mod Machine
mod Kapi
mod Vm
mod Uapi
mod Wasi
mod Net
mod Extensions
mod Execution
mod Layout
mod Arrays
mod Device
mod Run
mod Ioctl
mod Coroutine
