-- ===== src/Dns.antt =====
-- The DNS tools of Fingerprinting.
pub mod Name
pub mod HexDump
pub mod Dnsenum
pub mod Nslookup
pub mod Dig
pub mod Host
pub mod Axfr
