-- ===== src/Mesh.antt =====
-- The client of the mesh, internal/mqtt/crypto.go, mqtt.go and publish.go: what a node of the fleet
-- sends and what it makes of what it hears.
pub mod Ccm
pub mod Pki
pub mod Keys
pub mod Client
pub mod Publish
pub mod Delivery
