-- ===== src/Sched.antt =====
-- The CPU scheduling simulators (Groupname_Project2_2), one module for each algorithm of each author.
pub mod Lottery
pub mod Smp
pub mod Edf
pub mod Mlfq
pub mod Aryan
pub mod Ayush
pub mod Vijay
