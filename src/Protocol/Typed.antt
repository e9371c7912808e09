-- ===== src/Protocol/Typed.antt =====
-- protocol/src/lib.rs: what an event that is parsed satisfies.
pub mod Pop
pub mod Stages
pub mod Parsed
pub mod Reencode
