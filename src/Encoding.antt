-- ===== src/Encoding.antt =====
-- The crate crates/encoding: messages, their serialisation, the Merkle root and the encoder.
pub mod Messages
pub mod Serialize
pub mod Varint
pub mod Merkle
pub mod Encoder
