-- ===== src/Misc.antt =====
-- linux/src/misc.c: commands of the shell.
pub mod Functions
pub mod Reading
mod Tests
