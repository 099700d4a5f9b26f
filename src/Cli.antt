-- ===== src/Cli.antt =====
-- crates/ovid-cli: the composition root, where the laboratory that runs trials is put together.
pub mod Lab
