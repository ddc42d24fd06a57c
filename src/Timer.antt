-- ===== src/Timer.antt =====
-- linux/src/timer.c: timestamps of seconds and nanoseconds, time-outs and intervals in milliseconds.
pub mod Functions
pub mod Text
pub mod RoundTrip
pub mod Setting
pub mod Interval
mod Tests
