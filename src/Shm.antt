-- ===== src/Shm.antt =====
-- linux/src/shm.c: shared memory that is found by the path of a key file.
pub mod Functions
pub mod Opening
pub mod Sharing
mod Tests
