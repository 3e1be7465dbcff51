-- ===== src/Dns.antt =====
-- The zones of the CDN (src/blitzecdn/capabilities/dns/domain): the names and matches of rules, and
-- the virtual hosts that the fleet serves.
pub mod Texts
pub mod Rules
pub mod Names
pub mod Groups
pub mod Hosts
mod Examples
