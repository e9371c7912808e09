-- ===== src/Protocol.antt =====
-- The `protocol` crate.
pub mod EventType
pub mod Event
pub mod Validate
pub mod FieldMap
pub mod Ciborium
pub mod Parse
pub mod Encode
pub mod Payload
pub mod RoundTrip
pub mod Typed
pub mod Verify
pub mod Ids
