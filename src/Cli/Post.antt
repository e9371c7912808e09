-- ===== src/Cli/Post.antt =====
-- src/lib.rs: the command `post`.
pub mod Commands
pub mod Args
pub mod Build
pub mod Patch
pub mod Ensures
pub mod Literal
pub mod Built
pub mod Arms
pub mod Returned
pub mod Laws
