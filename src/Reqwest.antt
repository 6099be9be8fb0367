-- ===== src/Reqwest.antt =====
-- The requests and clients of reqwest.
pub mod Args
pub mod Stats
pub mod World
pub mod Guard
pub mod Limits
pub mod Clients
