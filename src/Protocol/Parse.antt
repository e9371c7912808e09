-- ===== src/Protocol/Parse.antt =====
-- protocol/src/lib.rs: `parse_cbor_map` and the helpers that take fields out of its map.
pub mod Pop
pub mod Stages
pub mod Order
