-- ===== src/Sched/Aryan.antt =====
-- Aryan/src/algorithms.c: round robin with one queue, and earliest deadline first, on several CPUs.
pub mod RoundRobin
pub mod Deadline
mod Tests
