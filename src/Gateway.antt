-- ===== src/Gateway.antt =====
-- crates/ovid-gateway: the lab's proxy, and what a run's network events say of its external
-- dependencies.
pub mod Proxy
pub mod Analysis
