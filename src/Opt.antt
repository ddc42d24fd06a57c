-- ===== src/Opt.antt =====
-- linux/src/opt.c: command line options. A program registers its options in a list, and `opt_run` calls the
-- function of each option that `getopt_long` finds.
pub mod Store
pub mod Functions
pub mod Rep
pub mod Appending
pub mod Registering
pub mod Freeing
pub mod Serving
pub mod Running
pub mod Exact
pub mod Whole
mod Tests
