-- ===== src/Subgraph.antt =====
-- The part of packages/subgraph that reads what the encoder writes.
pub mod Decoding
pub mod Tags
pub mod Networks
pub mod Store
pub mod Constants
pub mod Active
pub mod Chain
pub mod Linked
pub mod Mapping
pub mod Events
pub mod Reached
