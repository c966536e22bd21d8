-- ===== src/Examples.antt =====
-- Runs of the model on concrete input, one for each theorem that has conditions.
pub mod Libraries
pub mod Server
pub mod Wire
pub mod Uplink
pub mod Credentials
pub mod Dedup
pub mod Fleet
pub mod Session
pub mod Connections
pub mod Otp
pub mod Node
pub mod KeyCache
pub mod Mesh
pub mod Ghosts
