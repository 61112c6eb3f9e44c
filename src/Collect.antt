-- ===== src/Collect.antt =====
-- The decoder of packets, src/collect.c: a module for each function or group of functions.
pub mod Options
pub mod Flow
pub mod Packet
mod Tests
