-- ===== src/Crypto/StateHash.antt =====
-- crypto/src/state_hash.rs: the cumulative state hash of the indexers.
pub mod Defs
pub mod Order
pub mod Header
pub mod Array
