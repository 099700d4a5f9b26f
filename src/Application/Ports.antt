-- ===== src/Application/Ports.antt =====
-- crates/ovid-application/src/ports.rs: the outbound ports, what they exchange, and the merging of
-- observations. A port is a record of operations on a state of its own, which each returns anew.

pub mod Merged
use ovid.Prelude.{
  text_eq, ℕ, ℤ, ◌+◌, ◌%◌, ◌^◌, Bool, true, ◌&&◌, ◌||◌, Option, none, some, List, [], ◌∷◌, ◌++◌,
  Text, lit,
}
use ovid.Prelude.Order.{upsert, values, text_order}
use ovid.Domain.Dependency.{DependencyKey, key_eq, key_order}
use ovid.Domain.Trial.{
  Treatment, unchanged, deny_all_egress, block_dependency, hide_executable, TrialRecord,
}
use ovid.Domain.Baseline.{BaselineVerdict}
use ovid.Domain.Classify.{CausalConclusion}

pub record ProviderIdentity : Type 0 where
  pub name : Text
  pub version : Text

unfoldable pub describe : ProviderIdentity → Text
describe p = p.name ++ (lit "@" ++ p.version)

pub record LabCapabilities : Type 0 where
  pub vm_isolation : Bool
  pub clean_snapshot_restore : Bool
  pub denies_all_egress : Bool
  pub per_dependency_egress : Bool
  pub executable_hiding : Bool
  pub observation : Bool

unfoldable pub can_enforce : LabCapabilities → Treatment → Bool
can_enforce c unchanged = true
can_enforce c deny_all_egress = c.denies_all_egress
can_enforce c (block_dependency dependency) = c.per_dependency_egress
can_enforce c (hide_executable name) = c.executable_hiding

pub record PreparedEnvironment : Type 0 where
  pub id : Text
  pub workspace : Text
  pub provision : Option TrialRecord
  pub environment_digest : Text

pub record SnapshotRef : Type 0 where
  pub id : Text
  pub path : Text
  pub label : Text

pub record TrialSpec : Type 0 where
  pub label : Text
  pub argv : List Text
  pub treatment : Treatment
  pub timeout_seconds : ℕ

pub record NetworkCandidate : Type 0 where
  pub key : DependencyKey
  pub externally_controlled : Bool
  pub all_failed : Bool
  pub enforced_unavailable : Bool
  pub attempts : ℕ
  pub failures : ℕ

pub record ExecutableCandidate : Type 0 where
  pub name : Text
  pub found : Bool
  pub resolver_hint : Option Text

pub record EgressIntent : Type 0 where
  pub host : Text
  pub port : ℕ
  pub scheme : Text
  pub method : Text
  pub path : Text
  pub decision : Text

pub record TrialObservations : Type 0 where
  pub network : List NetworkCandidate
  pub egress_intents : List EgressIntent
  pub executables : List ExecutableCandidate
  pub observed : Bool
  pub events_captured : ℕ

pub record TrialResult : Type 0 where
  pub trial_record : TrialRecord
  pub observations : TrialObservations
  pub exit_code : Option ℤ
  pub duration_ms : ℕ
  pub output_tail : Text

pub data LabError : Type 0 where
  unsupported preparation execution : Text → LabError

pub data JournalError : Type 0 where
  append_failed : Text → JournalError

pub data JournalEvent : Type 0 where
  workload_selected : (workload : Text) (argv : List Text) → JournalEvent
  environment_prepared : (environment_digest : Text) (provision : Option TrialRecord) → JournalEvent
  snapshot_created : (id label : Text) → JournalEvent
  trial_completed :
      (rec : TrialRecord) (exit_code : Option ℤ) (duration_ms : ℕ) (output_tail : Text)
      → JournalEvent
  baseline_classified : BaselineVerdict → JournalEvent
  dependency_classified : CausalConclusion → JournalEvent
  world_synthesized : (digest : Text) (required optional unresolved : ℕ) → JournalEvent
  replay_completed : (label : Text) (passed : Bool) → JournalEvent
  egress_observed : (trial : Text) (intents : List EgressIntent) → JournalEvent
  limitation_recorded : Text → JournalEvent

-- `Result`
pub data Answer (E A : Type 0) : Type 0 where
  answered : A → Answer E A
  refused : E → Answer E A

-- `LaboratoryPort`, on the state of the adapter.
pub record Laboratory (σ : Type 0) : Type 0 where
  pub identity : σ → ProviderIdentity
  pub capabilities : σ → LabCapabilities
  pub prepare : Option (List Text) → σ → Answer LabError PreparedEnvironment × σ
  pub snapshot : PreparedEnvironment → Text → σ → Answer LabError SnapshotRef × σ
  pub run_trial : SnapshotRef → TrialSpec → σ → Answer LabError TrialResult × σ
  pub destroy : PreparedEnvironment → σ → σ

-- `JournalPort`
pub record Journal (τ : Type 0) : Type 0 where
  pub append : JournalEvent → τ → Answer JournalError Text × τ

-- What `and_modify` does to the entry of the same key.
unfoldable pub merge_network : NetworkCandidate → NetworkCandidate → NetworkCandidate
merge_network candidate existing = record {
  key = existing.key;
  externally_controlled = existing.externally_controlled || candidate.externally_controlled;
  all_failed = existing.all_failed && candidate.all_failed;
  enforced_unavailable = existing.enforced_unavailable && candidate.enforced_unavailable;
  attempts = (existing.attempts + candidate.attempts) % 2 ^ 64;
  failures = (existing.failures + candidate.failures) % 2 ^ 64;
}

-- `x.or(y)`
abbrev pub or_else : Option Text → Option Text → Option Text
or_else none y = y
or_else (some x) y = some x

unfoldable pub merge_executable : ExecutableCandidate → ExecutableCandidate → ExecutableCandidate
merge_executable candidate existing = record {
  name = existing.name;
  found = existing.found || candidate.found;
  resolver_hint = or_else existing.resolver_hint candidate.resolver_hint;
}

-- The nested loops over the trials and their candidates.
abbrev pub network_of : List TrialObservations → List NetworkCandidate
network_of [] = []
network_of (t ∷ trials) = t.network ++ network_of trials

abbrev pub executables_of : List TrialObservations → List ExecutableCandidate
executables_of [] = []
executables_of (t ∷ trials) = t.executables ++ executables_of trials

unfoldable pub merge_networks :
    List (DependencyKey × NetworkCandidate)
    → List NetworkCandidate
    → List (DependencyKey × NetworkCandidate)
merge_networks merged [] = merged
merge_networks merged (c ∷ cs) = merge_networks (upsert c.key (merge_network c) c merged) cs

unfoldable pub merge_candidates : List TrialObservations → List NetworkCandidate
merge_candidates trials = values (merge_networks [] (network_of trials))

unfoldable pub merge_tools :
    List (Text × ExecutableCandidate) → List ExecutableCandidate → List (Text × ExecutableCandidate)
merge_tools merged [] = merged
merge_tools merged (c ∷ cs) = merge_tools (upsert c.name (merge_executable c) c merged) cs

unfoldable pub merge_executables : List TrialObservations → List ExecutableCandidate
merge_executables trials = values (merge_tools [] (executables_of trials))
