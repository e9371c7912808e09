-- ===== src/Protocol/RoundTrip.antt =====
-- `parse_cbor_map` after `encode_cbor_map`.
pub mod WellTyped
pub mod Pushed
pub mod Slots
pub mod Stages
pub mod Fields
pub mod Written
pub mod CanonicalMap
pub mod Payload
