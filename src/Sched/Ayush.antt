-- ===== src/Sched/Ayush.antt =====
-- Ayush/src/algorithms.c: lottery and rate monotonic scheduling on several CPUs.
pub mod Lottery
mod Tests
