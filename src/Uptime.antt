-- ===== src/Uptime.antt =====
-- internal/uptime/tracker.go: how long each worker was online.
pub mod Tracker
pub mod Stats
mod Tests
