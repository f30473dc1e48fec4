-- ===== src/Rpc.antt =====
-- internal/rpc: addresses, their output scripts, and the coinbase transaction.
pub mod Result
pub mod Base58
pub mod Bech32
pub mod CashAddr
pub mod Coinbase
mod Tests
