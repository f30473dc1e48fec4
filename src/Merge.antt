-- ===== src/Merge.antt =====
-- internal/merge: the merge-mining coordinator.
pub mod Merkle
pub mod VarInt
pub mod AuxPow
pub mod Commitment
pub mod Coordinator
mod Tests
