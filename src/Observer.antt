-- ===== src/Observer.antt =====
-- crates/ovid-observer: event reduction, and the decoding of observed DNS traffic.
pub mod Aggregate
pub mod Dns
pub mod Strace
