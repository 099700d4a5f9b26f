-- ===== src/Observer/Dns.antt =====
-- crates/ovid-observer/src/dns.rs: recovering names from the resolver traffic in a trace.
pub mod Escapes
pub mod Names
pub mod Packets
pub mod Addresses
