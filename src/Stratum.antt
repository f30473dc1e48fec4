-- ===== src/Stratum.antt =====
-- internal/stratum/server.go: the mining server.
pub mod Merkle
pub mod Text
pub mod Share
pub mod Worker
pub mod Vardiff
pub mod Account
pub mod Submit
pub mod Router
pub mod BlockLog
pub mod Job
mod Tests
