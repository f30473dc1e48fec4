-- ===== src/Swap.antt =====
-- internal/swap: the engine that sells mined coins at an exchange.
pub mod Job
pub mod Advance
pub mod Engine
mod Tests
