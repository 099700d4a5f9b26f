-- ===== src/Domain/Scope.antt =====
-- crates/ovid-domain/src/scope.rs: the scope of a conclusion and its digest. What `serde_json` writes
-- for a scope is the parameter `json`.
use ovid.Prelude.{List, Text}
use ovid.Core.Digest.{Digest, of_bytes}

pub record AnalysisScope : Type 0 where
  pub repository : Text
  pub revision : Text
  pub workload : Text
  pub workload_argv : List Text
  pub environment_digest : Text
  pub success_predicate : Text
  pub execution_policy : Text
  pub observer : Text
  pub experiment_policy : Text

unfoldable pub digest : (Text → Text) → (AnalysisScope → Text) → AnalysisScope → Digest
digest sha256_hex json scope = of_bytes sha256_hex (json scope)
