-- ===== src/Application.antt =====
-- crates/ovid-application: the use cases over the domain and the ports.
pub mod Workflow
pub mod Ports
pub mod Prove
