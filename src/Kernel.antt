-- ===== src/Kernel.antt =====
-- The kernel's own system calls (xv6-riscv/kernel).
pub mod UserMemory
pub mod Proc
mod FlatMemory
pub mod MsgQueue
pub mod Signal
pub mod Semaphore
pub mod Family
pub mod Fork
pub mod Cache
pub mod Namex
pub mod Page
pub mod Vm
pub mod Log
pub mod Pipe
pub mod Strings
