-- ===== src/Dns.antt =====
-- internal/dns: the zones in memory, the rate limit and the answers of the authoritative server.
pub mod Types
pub mod Records
pub mod Zones
pub mod Rate
pub mod Server
