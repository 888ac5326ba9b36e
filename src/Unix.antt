-- ===== src/Unix.antt =====
-- The servers over Unix-domain and Internet sockets: how they start, how they hand descriptors to one
-- another, and how they share their clients.
pub mod Startup
pub mod FdPass
pub mod Relay
pub mod Failover
pub mod Services
pub mod Spawn
