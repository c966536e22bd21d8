-- ===== src/Server.antt =====
-- The MQTT proxy's inspection of packets: internal/app/server.
pub mod Libs
pub mod Inspector
pub mod Inspect
pub mod Decider
pub mod Rules
pub mod ConnTrack
pub mod Inspection
pub mod Uplink
pub mod PacketType
pub mod Connect
pub mod Session
pub mod Handler
pub mod Downlink
pub mod Route
pub mod Classic
