-- ===== src/Planner.antt =====
-- crates/ovid-planner: the commands that a repository's own files suggest.
pub mod Miners
