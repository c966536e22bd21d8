-- ===== src/Fleet.antt =====
-- The ghosts of the fleet: what they do with a direct message, internal/app/fleet/cmd.go and guard.go,
-- and what they send again to a radio that is back.
pub mod Handler
pub mod Pending
pub mod Chat
