-- ===== src/Application/Prove.antt =====
-- crates/ovid-application/src/prove.rs: the policy, the request and the report of the `prove` use
-- case. The wall-clock timings of the stages are left out.
pub mod Run
pub mod Schedule
pub mod Trials
pub mod Screen
pub mod Sweep
pub mod Worlds
pub mod Loop
pub mod Triples
pub mod Budget
pub mod Experiments
pub mod Ending
pub mod Safety
use ovid.Prelude.{ℕ, Option, List, ◌++◌, Text, lit, show}
use ovid.Domain.Scope.{AnalysisScope}
use ovid.Domain.Trial.{TrialRecord}
use ovid.Domain.Baseline.{BaselineVerdict}
use ovid.Domain.Classify.{CausalConclusion}
use ovid.Domain.World.{WorldOutcome}
use ovid.Prelude.{Bool}
use ovid.Application.Ports.{
  NetworkCandidate, EgressIntent, ExecutableCandidate, LabError, JournalError,
}

pub record ProvePolicy : Type 0 where
  pub baseline_runs : ℕ
  pub confirmation_runs : ℕ
  pub max_trials : ℕ
  pub timeout_seconds : ℕ
  pub attempt_replay : Bool

unfoldable pub describe : ProvePolicy → Text
describe p =
    lit "baseline-runs="
    ++ (show p.baseline_runs
        ++ (lit " confirmation-runs="
            ++ (show p.confirmation_runs ++ (lit " max-trials=" ++ show p.max_trials))))

pub record ProveRequest : Type 0 where
  pub scope : AnalysisScope
  pub provision_argv : Option (List Text)

pub record ClassifiedDependency : Type 0 where
  pub conclusion : CausalConclusion
  pub evidence : Text

pub record ProveReport : Type 0 where
  pub scope : AnalysisScope
  pub provision_argv : Option (List Text)
  pub provision : Option TrialRecord
  pub baseline : BaselineVerdict
  pub network_candidates : List NetworkCandidate
  pub egress_intents : List EgressIntent
  pub executable_candidates : List ExecutableCandidate
  pub trials : List TrialRecord
  pub conclusions : List ClassifiedDependency
  pub world : WorldOutcome
  pub limitations : List Text
  pub trials_executed : ℕ

pub data ProveError : Type 0 where
  lab_error : LabError → ProveError
  journal_error : JournalError → ProveError
