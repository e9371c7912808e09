-- ===== src/Canonical.antt =====
-- protocol/src/canonical.rs: the canonical-CBOR walker, its grammar, and their agreement.
pub mod Walk
pub mod Grammar
pub mod Complete
pub mod Sound
pub mod Laws
