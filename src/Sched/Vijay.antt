-- ===== src/Sched/Vijay.antt =====
-- Vijay/algorithms.c: lottery and rate monotonic scheduling on one CPU, for a given time.
pub mod Lottery
pub mod Rms
mod Tests
