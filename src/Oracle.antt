-- ===== src/Oracle.antt =====
-- The crate crates/oracle: the block oracle itself, from the polling loop down.
pub mod ChainId
pub mod Control
pub mod Freshness
pub mod State
pub mod Payload
pub mod Monitor
pub mod Epoch
pub mod Contracts
pub mod Config
