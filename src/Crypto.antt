-- ===== src/Crypto.antt =====
-- The `crypto` crate.
pub mod Sealed
pub mod Aead
pub mod Kdf
pub mod Tags
pub mod StateHash
pub mod RequestAuth
