-- ===== src/Cond.antt =====
-- linux/src/cond.c: condition variables with their mutex and a status.
pub mod Functions
pub mod Locking
pub mod Leaking
mod Tests
