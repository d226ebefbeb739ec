-- ===== src/Server.antt =====
-- internal/server/server.go: the fleet of workers, and how jobs are dispatched to it.
pub mod Stream
pub mod Fleet
pub mod Wait
pub mod Affinity
pub mod Submit
pub mod Live
pub mod Control
