-- ===== src/Earnings.antt =====
-- internal/earnings/tracker.go: the blocks that were found, and what they earned.
pub mod State
pub mod Blocklogs
pub mod Tracker
pub mod Snapshot
mod Tests
