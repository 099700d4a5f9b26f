-- ===== src/Packs.antt =====
-- crates/ovid-packs: the packs of reviewed knowledge, and the registry that answers from them.
pub mod Schema
pub mod Registry
