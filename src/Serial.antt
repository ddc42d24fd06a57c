-- ===== src/Serial.antt =====
-- linux/src/serial.c: a serial port, from which the bytes of one message are received.
pub mod Functions
pub mod Receiving
mod Tests
