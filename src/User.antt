-- ===== src/User.antt =====
-- User programs (user/).
pub mod Grep
