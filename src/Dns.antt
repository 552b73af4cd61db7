-- ===== src/Dns.antt =====
-- core/dns/src/lib.rs: `.void` domains, their signed records and the local cache.
pub mod Domain
pub mod Record
pub mod Cache
mod Tests
