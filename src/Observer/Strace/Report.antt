-- ===== src/Observer/Strace/Report.antt =====
-- crates/ovid-observer/src/lib.rs: what an observer reports.
use ovid.Prelude.{ℕ, List}
use ovid.Core.Event.{EventEnvelope}

pub record ObservationReport : Type 0 where
  pub events : List EventEnvelope
  pub unparsed_lines : ℕ
  pub raw_line_count : ℕ
