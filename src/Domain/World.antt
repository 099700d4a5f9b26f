-- ===== src/Domain/World.antt =====
-- crates/ovid-domain/src/world.rs: candidate, proposed and verified worlds. `Codec` is what the crates
-- `sha2`, `hex` and `serde_json` compute; nothing is assumed of it.
pub mod Verification
use ovid.Prelude.{Bool, true, false, ◌&&◌, Option, none, some, List, [], Text, lit, if◌then◌else◌}
use ovid.Prelude.Order.{sort}
use ovid.Core.Digest.{Digest, hex, of_bytes}
use ovid.Domain.Dependency.{DependencyKey, key_order}
use ovid.Domain.Scope
use ovid.Domain.Scope.{AnalysisScope}
use ovid.Domain.Trial.{TrialRecord, is_baseline}

pub record WorldCandidate : Type 0 where
  pub required : List DependencyKey
  pub optional : List DependencyKey
  pub unresolved : List DependencyKey
  pub workload_argv : List Text
  pub environment : List (Text × Text)

pub record ProposedWorld : Type 0 where
  pub candidate : WorldCandidate
  pub scope : AnalysisScope
  pub digest : Digest

pub record Codec : Type 0 where
  pub sha256_hex : Text → Text
  pub scope_json : AnalysisScope → Text
  pub world_json : WorldCandidate → Text → Text

unfoldable pub canonical : WorldCandidate → WorldCandidate
canonical w = record w {
  required = sort w.required;
  optional = sort w.optional;
  unresolved = sort w.unresolved;
}

-- The proposal of a candidate that is already in canonical order.
proposal : Codec → WorldCandidate → AnalysisScope → ProposedWorld
proposal k c scope = record {
  candidate = c;
  scope = scope;
  digest =
      of_bytes k.sha256_hex (k.world_json c (hex (Scope.digest k.sha256_hex k.scope_json scope)));
}

unfoldable pub propose : Codec → WorldCandidate → AnalysisScope → ProposedWorld
unfolding canonical proposal
propose k w scope = proposal k (canonical w) scope

pub record ReplayEvidence : Type 0 where
  pub trial : TrialRecord

unfoldable pub from_clean_replay : TrialRecord → Option ReplayEvidence
from_clean_replay trial =
    if is_baseline trial.treatment && trial.outcome.passed
    then some (record { trial = trial })
    else none

pub record VerifiedWorld : Type 0 where
  pub world : ProposedWorld
  pub replay : ReplayEvidence

unfoldable pub verify : ProposedWorld → ReplayEvidence → VerifiedWorld
verify w replay = record { world = w; replay = replay }

pub data WorldOutcome : Type 0 where
  not_synthesized : Text → WorldOutcome
  proposed : ProposedWorld → Text → WorldOutcome
  replay_failed : ProposedWorld → TrialRecord → WorldOutcome
  verified : VerifiedWorld → WorldOutcome

unfoldable pub label : WorldOutcome → Text
label (not_synthesized reason) = lit "not-synthesized"
label (proposed world reason) = lit "proposed"
label (replay_failed world failure) = lit "replay-failed"
label (verified world) = lit "verified"
