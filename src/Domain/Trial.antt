-- ===== src/Domain/Trial.antt =====
-- crates/ovid-domain/src/trial.rs: treatments, enforcement reports, outcomes and trial records.
use ovid.Prelude.{Bool, true, false, Option, none, some, List, [], ◌∷◌, ◌++◌, Text, lit}
use ovid.Domain.Dependency.{DependencyKey}
use ovid.Domain.Dependency

-- `unchanged` is `Treatment::None`.
pub data Treatment : Type 0 where
  unchanged deny_all_egress : Treatment
  block_dependency : DependencyKey → Treatment
  hide_executable : Text → Treatment

unfoldable pub is_baseline : Treatment → Bool
is_baseline unchanged = true
is_baseline _ = false

unfoldable pub describe : Treatment → Text
describe unchanged = lit "none (baseline)"
describe deny_all_egress = lit "deny all external egress"
describe (block_dependency dependency) = lit "block " ++ Dependency.describe dependency
describe (hide_executable name) = lit "hide executable " ++ name

pub data EnforcementStatus : Type 0 where
  enforced partially_enforced not_enforced : EnforcementStatus

unfoldable pub is_enforced : EnforcementStatus → Bool
is_enforced enforced = true
is_enforced _ = false

pub record EnforcementReport : Type 0 where
  pub requested : Treatment
  pub status : EnforcementStatus
  pub mechanism : Text
  pub limitations : List Text

-- `EnforcementReport::enforced`
unfoldable pub enforced_by : Treatment → Text → EnforcementReport
enforced_by requested mechanism = record {
  requested = requested;
  status = enforced;
  mechanism = mechanism;
  limitations = [];
}

-- `EnforcementReport::not_enforced`
unfoldable pub not_enforced_because : Treatment → Text → EnforcementReport
not_enforced_because requested reason = record {
  requested = requested;
  status = not_enforced;
  mechanism = lit "none";
  limitations = reason ∷ [];
}

pub record TrialOutcome : Type 0 where
  pub passed : Bool
  pub failure_signature : Option Text

-- `TrialOutcome::passed` and `TrialOutcome::failed`
abbrev pub passing : TrialOutcome
passing = record { passed = true; failure_signature = none }

abbrev pub failing : Text → TrialOutcome
failing signature = record { passed = false; failure_signature = some signature }

pub record TrialRecord : Type 0 where
  pub label : Text
  pub treatment : Treatment
  pub enforcement : EnforcementReport
  pub outcome : TrialOutcome
  pub evidence : List Text

pub record CandidateEvidence : Type 0 where
  pub key : DependencyKey
  pub externally_controlled : Bool
  pub unavailable_under_treatment : Bool
  pub attempted_in_baseline : Bool
