-- ===== src/Domain.antt =====
-- crates/ovid-domain: the pure causal-verification domain.
pub mod Dependency
pub mod Trial
pub mod Baseline
pub mod Classify
pub mod Scope
pub mod World
