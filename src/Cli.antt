-- ===== src/Cli.antt =====
-- src/: the command line.
pub mod Addresses
pub mod Hexutil
pub mod Output
pub mod Network
pub mod Client
pub mod Submit
pub mod Post
pub mod Decode
pub mod ReadRpc
pub mod IndexScan
pub mod Id
pub mod Broadcast
pub mod Commands
pub mod Run
