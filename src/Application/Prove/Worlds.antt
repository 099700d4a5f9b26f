-- ===== src/Application/Prove/Worlds.antt =====
-- crates/ovid-application/src/prove.rs: the world that the conclusions give, and its clean replay.
use ovid.Prelude.{
  Bool, true, false, not, Option, none, some, List, [], ◌++◌, map, Text, lit, length, keep_if, leb,
}
use ovid.Core.Digest.{hex}
use ovid.Domain.Dependency.{DependencyKey}
use ovid.Domain.Trial.{unchanged}
use ovid.Domain.Baseline.{BaselineVerdict, supports_experiments}
use ovid.Domain.Baseline
use ovid.Domain.Classify.{Necessity, required, optional, unresolved}
use ovid.Domain.Scope.{AnalysisScope}
use ovid.Domain.World.{
  WorldCandidate, ProposedWorld, Codec, propose, ReplayEvidence, from_clean_replay, verify,
  WorldOutcome, not_synthesized, proposed, replay_failed, verified,
}
use ovid.Application.Workflow.{AnalysisState}
use ovid.Application.Workflow
use ovid.Application.Ports.{
  Laboratory, Journal, SnapshotRef, TrialResult, world_synthesized, replay_completed,
}
use ovid.Application.Prove.{ProvePolicy, ClassifiedDependency}
use ovid.Application.Prove.Run.{
  returned, panicked, Action, pure, ◌>>=◌, choose, append, advance, executed,
}
use ovid.Application.Prove.Trials.{run_trial}

abbrev pub is_necessity : Necessity → ClassifiedDependency → Bool
is_necessity required c = elim c.conclusion.necessity [ required ↦ true | _ ↦ false ]
is_necessity optional c = elim c.conclusion.necessity [ optional ↦ true | _ ↦ false ]
is_necessity unresolved c = elim c.conclusion.necessity [ unresolved ↦ true | _ ↦ false ]

abbrev pub keys_of : Necessity → List ClassifiedDependency → List DependencyKey
keys_of n conclusions = map (λ c. c.conclusion.dependency) (keep_if (is_necessity n) conclusions)

-- The loop that sorts the conclusions' keys by their necessity.
unfoldable pub candidate_world : List Text → List ClassifiedDependency → WorldCandidate
candidate_world argv conclusions = record {
  required = keys_of required conclusions;
  optional = keys_of optional conclusions;
  unresolved = keys_of unresolved conclusions;
  workload_argv = argv;
  environment = [];
}

module _ {σ τ : Type 0} (lab : Laboratory σ) (journal : Journal τ) (k : Codec)
    (policy : ProvePolicy) (snapshot : SnapshotRef) (scope : AnalysisScope) where
  unfoldable pub conclude_replay :
      ProposedWorld → TrialResult → Option ReplayEvidence → Action σ τ WorldOutcome
  conclude_replay world replay (some evidence) = do
    _ ← advance Workflow.replay_verified
    pure (verified (verify world evidence))
  conclude_replay world replay none = do
    _ ← advance Workflow.replay_failed
    pure (replay_failed world replay.trial_record)

  -- `.expect("budget checked above")` panics on `none`.
  unfoldable pub after_replay : ProposedWorld → Option TrialResult → Action σ τ WorldOutcome
  after_replay world none = λ s. panicked
  after_replay world (some replay) = do
    _ ←
        append journal
          (replay_completed replay.trial_record.label replay.trial_record.outcome.passed)
    conclude_replay world replay (from_clean_replay replay.trial_record)

  unfoldable pub replay_world : ProposedWorld → Action σ τ WorldOutcome
  replay_world world = do
    result ← run_trial lab journal policy snapshot scope.workload_argv (lit "replay") unchanged
    after_replay world result

  unfoldable pub leave_proposed : ProposedWorld → Text → Action σ τ WorldOutcome
  leave_proposed world reason = do
    _ ← advance Workflow.replay_unavailable
    pure (proposed world reason)

  unfoldable pub conclusions_so_far : Action σ τ (List ClassifiedDependency)
  conclusions_so_far s = returned s.conclusions s

  unfoldable pub synthesize : Action σ τ WorldOutcome
  synthesize = do
    conclusions ← conclusions_so_far
    let world = propose k (candidate_world scope.workload_argv conclusions) scope
    _ ← append journal (
        world_synthesized (hex world.digest) (length world.candidate.required)
          (length world.candidate.optional) (length world.candidate.unresolved))
    _ ← advance Workflow.world_synthesized
    n ← executed
    choose (not policy.attempt_replay) (leave_proposed world (lit "replay disabled by policy")) (
        choose (leb policy.max_trials n)
          (leave_proposed world (lit "trial budget exhausted before replay")) (replay_world world))

  unfoldable pub world_stage : BaselineVerdict → Action σ τ WorldOutcome
  world_stage baseline =
      choose (not (supports_experiments baseline))
        (pure (
          not_synthesized (
            lit "baseline is not stable-passing ("
            ++ (Baseline.describe baseline
                ++ lit
                    "); a world synthesized from an unreproducible workload would be unverifiable"))))
        synthesize
