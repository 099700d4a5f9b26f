-- ===== src/Application/Prove/Loop.antt =====
-- crates/ovid-application/src/prove.rs: `run_clean_replay` and `prove`. What `progress` prints is left
-- out.
use ovid.Prelude.{
  ℕ, not, Option, none, some, List, [], ◌∷◌, ◌++◌, map, Text, lit, show, any, keep_if,
  if◌then◌else◌, ltb,
}
use ovid.Domain.Trial.{unchanged, TrialRecord}
use ovid.Domain.Baseline.{BaselineVerdict, supports_experiments, assess_baseline}
use ovid.Domain.Classify.{classify_intervention}
use ovid.Domain.Scope.{AnalysisScope}
use ovid.Domain.World.{Codec}
use ovid.Application.Workflow.{
  AnalysisState, source_resolved, inspected, environment_prepared, provisioned, baseline_validated,
  candidates_observed, experiments_completed, finalized,
}
use ovid.Application.Workflow
use ovid.Application.Ports.{
  Laboratory, Journal, Answer, answered, LabError, SnapshotRef, PreparedEnvironment, TrialSpec,
  TrialResult, NetworkCandidate, ExecutableCandidate, workload_selected, baseline_classified,
  snapshot_created, limitation_recorded, merge_candidates, merge_executables,
}
use ovid.Application.Ports
use ovid.Application.Prove.{ProvePolicy, ProveRequest, ProveReport}
use ovid.Application.Prove
use ovid.Application.Prove.Run.{
  Run, returned, Action, pure, ◌>>=◌, when, choose, call_lab, append, advance, limit,
  journal_conclusions,
}
use ovid.Application.Prove.Schedule.{collect_intents, sort_by, intent_le}
use ovid.Application.Prove.Trials.{run_trials}
use ovid.Application.Prove.Screen.{observed_evidence, reuse_counterfactuals, screen_networks}
use ovid.Application.Prove.Sweep.{sweep_executables, hide_targets}
use ovid.Application.Prove.Worlds.{world_stage}

-- `run_clean_replay`
unfoldable pub run_clean_replay :
    {σ : Type 0}
    → Laboratory σ
    → SnapshotRef
    → Text
    → List Text
    → ℕ
    → σ
    → Answer LabError TrialResult × σ
run_clean_replay lab snapshot label argv timeout_seconds = lab.run_trial snapshot (record {
  label = label;
  argv = argv;
  treatment = unchanged;
  timeout_seconds = timeout_seconds;
})

-- `policy.baseline_runs.max(1)`
abbrev pub at_least_1 : ℕ → ℕ
at_least_1 n = if ltb n 1 then 1 else n

-- What the baseline showed.
pub record Candidates : Type 0 where
  pub network_candidates : List NetworkCandidate
  pub executable_candidates : List ExecutableCandidate

unfoldable pub candidates_of : List TrialResult → Candidates
candidates_of results =
    let observations = map (λ r. r.observations) results in
    record {
      network_candidates = keep_if (λ c. c.externally_controlled) (merge_candidates observations);
      executable_candidates = merge_executables observations;
    }

abbrev provision_warning : Option TrialRecord → List Text
provision_warning none = []
provision_warning (some rec) =
    if rec.outcome.passed
    then []
    else (lit "provisioning command failed ("
        ++ (rec.label ++ lit "); workloads ran against a partially provisioned environment"))
      ∷ []

module _ {σ τ : Type 0} (lab : Laboratory σ) (journal : Journal τ) (k : Codec)
    (policy : ProvePolicy) where
  unfoldable pub limit_all : List Text → Action σ τ (Unit {0})
  limit_all [] = pure tt
  limit_all (d ∷ details) = do _ ← limit d; limit_all details

  -- Up to the environment.
  unfoldable pub prepare : AnalysisScope → Option (List Text) → Action σ τ PreparedEnvironment
  prepare scope provision_argv = do
    _ ← advance source_resolved
    _ ← advance inspected
    _ ← append journal (workload_selected scope.workload scope.workload_argv)
    environment ← call_lab (lab.prepare provision_argv)
    _ ← advance environment_prepared
    _ ←
        append journal
          (Ports.environment_prepared environment.environment_digest environment.provision)
    _ ← limit_all (provision_warning environment.provision)
    _ ← advance provisioned
    pure environment

  unfoldable pub freeze : PreparedEnvironment → Action σ τ SnapshotRef
  freeze environment = do
    snapshot ← call_lab (lab.snapshot environment (lit "post-provision"))
    _ ← append journal (snapshot_created snapshot.id snapshot.label)
    pure snapshot

  unfoldable pub run_baseline : SnapshotRef → List Text → Action σ τ (List TrialResult)
  run_baseline snapshot argv = do
    results ←
        run_trials lab journal policy snapshot argv (λ index. lit "baseline-" ++ show index)
          unchanged (limit (lit "trial budget exhausted during baseline"))
          (at_least_1 policy.baseline_runs) 1
    _ ←
        append journal
          (baseline_classified (assess_baseline (map (λ r. r.trial_record.outcome) results)))
    _ ← advance baseline_validated
    _ ← when (not (any (λ r. r.observations.observed) results)) (
        limit (
          lit
            "boundary observation was unavailable: no dependency candidates could be collected from baseline runs"))
    pure results

  unfoldable pub experiments :
      SnapshotRef → List Text → BaselineVerdict → List Text → Candidates → Action σ τ (Unit {0})
  experiments snapshot argv baseline labels seen =
      choose (not (supports_experiments baseline))
        (journal_conclusions journal (
          classify_intervention baseline []
            (observed_evidence seen.network_candidates seen.executable_candidates)))
        (do
          _ ←
              reuse_counterfactuals journal baseline labels seen.network_candidates
                seen.executable_candidates
          _ ←
              screen_networks lab journal policy snapshot argv baseline
                (keep_if (λ c. not c.all_failed) seen.network_candidates)
          sweep_executables lab journal policy snapshot argv baseline
              (hide_targets seen.executable_candidates))

  unfoldable pub journal_limitations : List Text → Action σ τ (Unit {0})
  journal_limitations [] = pure tt
  journal_limitations (detail ∷ rest) = do
    _ ← append journal (limitation_recorded detail)
    journal_limitations rest

  unfoldable pub current : Action σ τ (Run σ τ)
  current s = returned s s

  -- `let _ = lab.destroy(environment)`
  unfoldable pub destroy : PreparedEnvironment → Action σ τ (Unit {0})
  destroy environment s = returned tt (record s { lab = lab.destroy environment s.lab })

  unfoldable pub finish : PreparedEnvironment → Action σ τ (Unit {0})
  finish environment = do
    s ← current
    _ ← journal_limitations s.limitations
    _ ← advance finalized
    destroy environment

  -- From the snapshot on, with the completed scope.
  unfoldable pub analyse :
      ProveRequest → AnalysisScope → PreparedEnvironment → SnapshotRef → Action σ τ ProveReport
  analyse request scope environment snapshot = do
    results ← run_baseline snapshot scope.workload_argv
    let baseline = assess_baseline (map (λ r. r.trial_record.outcome) results)
    let seen = candidates_of results
    let egress_intents = sort_by intent_le (collect_intents [] (map (λ r. r.observations) results))
    _ ← advance candidates_observed
    _ ←
        experiments snapshot scope.workload_argv baseline (map (λ r. r.trial_record.label) results)
          seen
    _ ← advance experiments_completed
    world ← world_stage lab journal k policy snapshot scope baseline
    _ ← finish environment
    s ← current
    pure (record {
      scope = scope;
      provision_argv = request.provision_argv;
      provision = environment.provision;
      baseline = baseline;
      network_candidates = seen.network_candidates;
      egress_intents = egress_intents;
      executable_candidates = seen.executable_candidates;
      trials = s.trials;
      conclusions = s.conclusions;
      world = world;
      limitations = s.limitations;
      trials_executed = s.trials_executed;
    })

  unfoldable pub prove : ProveRequest → Action σ τ ProveReport
  prove request = do
    start ← current
    let scope : AnalysisScope = record request.scope {
      observer = Ports.describe (lab.identity start.lab);
      experiment_policy = Prove.describe policy;
    }
    environment ← prepare scope request.provision_argv
    snapshot ← freeze environment
    analyse request (record scope { environment_digest = environment.environment_digest })
        environment snapshot

-- The variables at the start.
abbrev pub initial : {σ τ : Type 0} → σ → τ → Run σ τ
initial l j = record {
  lab = l;
  journal = j;
  workflow = Workflow.new;
  trials = [];
  trials_executed = 0;
  limitations = [];
  conclusions = [];
}
