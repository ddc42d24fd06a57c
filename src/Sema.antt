-- ===== src/Sema.antt =====
-- linux/src/sema.c: System V semaphores as objects, and what a caller can rely on.
pub mod Functions
pub mod Counting
pub mod Initial
pub mod Exclusion
mod Tests
