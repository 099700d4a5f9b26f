-- ===== src/Core.antt =====
-- crates/ovid-core: digests, trust tiers, claim states, boundary events and identifiers.
pub mod Digest
pub mod Trust
pub mod States
pub mod Event
pub mod Id
