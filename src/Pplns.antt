-- ===== src/Pplns.antt =====
-- internal/pplns/payout.go: the payout engine that pays for the last N shares.
pub mod Ring
pub mod Engine
pub mod Payouts
mod Tests
