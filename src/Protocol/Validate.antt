-- ===== src/Protocol/Validate.antt =====
-- protocol/src/lib.rs: `validate_ref`, `validate_role_byte`, `validate_target_bytes`, `validate_event`.
pub mod Guards
pub mod ByType
pub mod Defs
pub mod Laws
