-- ===== src/Workers.antt =====
-- The workers of app/workers/ and the readiness check of app/readiness.py that they share.
pub mod Readiness
pub mod Watchdog
pub mod Monitor
pub mod Heartbeat
mod Tests
