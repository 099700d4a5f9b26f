-- ===== src/Application/Prove/Safety.antt =====
-- crates/ovid-application/src/prove.rs: the whole of `prove`, whatever the laboratory and the journal
-- answer.
use ovid.Prelude.{◌^◌, ◌≤◌, ◌<◌, ◌≡◌, refl, Option, List, [], ◌∷◌, Text, length, map, arith}
use ovid.Domain.Baseline.{BaselineVerdict, supports_experiments, assess_baseline}
use ovid.Domain.Scope.{AnalysisScope}
use ovid.Domain.World.{Codec}
use ovid.Application.Workflow.{
  AnalysisState, created, source_resolved, inspected, environment_prepared, provisioned,
  baseline_validated, candidates_observed, experiments_completed, finalized,
}
use ovid.Application.Workflow
use ovid.Application.Ports.{Laboratory, Journal, SnapshotRef, PreparedEnvironment}
use ovid.Application.Prove.{ProvePolicy, ProveRequest, ProveReport, ProveError}
use ovid.Application.Prove.Run.{Run, Action, ◌>>=◌}
use ovid.Application.Prove.Loop.{
  prove, analyse, prepare, freeze, run_baseline, experiments, limit_all, current, initial,
  Candidates,
}
use ovid.Application.Prove.Triples.{
  Tracks, Spent, Meets, Triple, bind-Triple, when-Keeps, choose-Keeps, limit-Keeps, append-Keeps,
  call_lab-Keeps, journal_conclusions-Keeps,
}
use ovid.Application.Prove.Budget.{run_trials-Keeps}
use ovid.Application.Prove.Ending.{Backed, Ready, step, world_stage-Ends, finish-Triple}
use ovid.Application.Prove.Experiments.{
  reuse_counterfactuals-Stays, screen_networks-Stays, sweep_executables-Stays,
}

module _ {σ τ : Type 0} (lab : Laboratory σ) (journal : Journal τ) (k : Codec)
    (policy : ProvePolicy) (small : policy.max_trials < 2 ^ 64) where
  abbrev Fails : ProveError → Run σ τ → Type 0
  Fails = Spent policy.max_trials

  abbrev At : AnalysisState → Run σ τ → Type 0
  At w = Tracks policy.max_trials w 0

  -- From one state of the workflow to another.
  abbrev Moves : {A : Type 0} → AnalysisState → AnalysisState → Action σ τ A → Type 0
  Moves w v m = Triple Fails (At w) m (λ _. At v)

  abbrev then_Moves :
      {A B : Type 0} (w u v : AnalysisState) (m : Action σ τ A) (f : A → Action σ τ B)
      → Moves w u m
      → ((a : A) → Moves u v (f a))
      → Moves w v (m >>= f)
  then_Moves w u v = bind-Triple Fails (At w) (λ _. At u) (λ _. At v)

  limit_all-Moves :
      (w : AnalysisState) (ds : List Text) → Moves w w (limit_all lab journal k policy ds)
  unfolding limit_all
  limit_all-Moves w [] = λ s p. p
  limit_all-Moves w (d ∷ ds) =
      then_Moves w w w _ _ (limit-Keeps policy.max_trials w d) (λ _. limit_all-Moves w ds)

  prepare-Moves :
      (scope : AnalysisScope) (argv : Option (List Text))
      → Moves created provisioned (prepare lab journal k policy scope argv)
  unfolding prepare Workflow.allows
  prepare-Moves scope argv =
      then_Moves created source_resolved provisioned _ _ (step lab journal k policy small _ _ refl)
        (λ _.
          then_Moves source_resolved inspected provisioned _ _
            (step lab journal k policy small _ _ refl)
            (λ _.
              then_Moves inspected inspected provisioned _ _
                (append-Keeps policy.max_trials journal _ _)
                (λ _.
                  then_Moves inspected inspected provisioned _ _
                    (call_lab-Keeps policy.max_trials _ _)
                    (λ environment.
                      then_Moves inspected environment_prepared provisioned _ _
                        (step lab journal k policy small _ _ refl)
                        (λ _.
                          then_Moves environment_prepared environment_prepared provisioned _ _
                            (append-Keeps policy.max_trials journal _ _)
                            (λ _.
                              then_Moves environment_prepared environment_prepared provisioned _ _
                                (limit_all-Moves _ _)
                                (λ _.
                                  then_Moves environment_prepared provisioned provisioned _ _
                                    (step lab journal k policy small _ _ refl) (λ _ s p. p))))))))

  freeze-Moves :
      (environment : PreparedEnvironment)
      → Moves provisioned provisioned (freeze lab journal k policy environment)
  unfolding freeze
  freeze-Moves environment =
      then_Moves provisioned provisioned provisioned _ _ (call_lab-Keeps policy.max_trials _ _)
        (λ snapshot.
          then_Moves provisioned provisioned provisioned _ _
            (append-Keeps policy.max_trials journal _ _) (λ _ s p. p))

  run_baseline-Moves :
      (snapshot : SnapshotRef) (argv : List Text)
      → Moves provisioned baseline_validated (run_baseline lab journal k policy snapshot argv)
  unfolding run_baseline Workflow.allows
  run_baseline-Moves snapshot argv =
      then_Moves provisioned provisioned baseline_validated _ _
        (run_trials-Keeps lab journal policy snapshot argv small _ _ _ _ _ _
          (limit-Keeps policy.max_trials _ _))
        (λ results.
          then_Moves provisioned provisioned baseline_validated _ _
            (append-Keeps policy.max_trials journal _ _)
            (λ _.
              then_Moves provisioned baseline_validated baseline_validated _ _
                (step lab journal k policy small _ _ refl)
                (λ _.
                  then_Moves baseline_validated baseline_validated baseline_validated _ _
                    (when-Keeps Fails (At baseline_validated) _ _
                      (limit-Keeps policy.max_trials _ _))
                    (λ _ s p. p))))

  experiments-Moves :
      (snapshot : SnapshotRef) (argv : List Text) (baseline : BaselineVerdict) (labels : List Text)
      (seen : Candidates)
      → Moves candidates_observed candidates_observed
          (experiments lab journal k policy snapshot argv baseline labels seen)
  unfolding experiments
  experiments-Moves snapshot argv baseline labels seen =
      choose-Keeps Fails (At candidates_observed) _ _ _
        (journal_conclusions-Keeps policy.max_trials journal _ _)
        (then_Moves candidates_observed candidates_observed candidates_observed _ _
          (reuse_counterfactuals-Stays lab journal policy snapshot argv baseline small _ labels _ _)
          (λ _.
            then_Moves candidates_observed candidates_observed candidates_observed _ _
              (screen_networks-Stays lab journal policy snapshot argv baseline small _ _)
              (λ _. sweep_executables-Stays lab journal policy snapshot argv baseline small _ _)))

  -- What the report says, and where the workflow ends.
  abbrev pub Reported : ProveReport → Run σ τ → Type 0
  Reported report s =
      (s.workflow.state ≡ finalized)
      × (length report.trials ≡ report.trials_executed)
      × (report.trials_executed ≤ policy.max_trials)
      × Backed (supports_experiments report.baseline) report.world

  analyse-Triple :
      (request : ProveRequest) (scope : AnalysisScope) (environment : PreparedEnvironment)
      (snapshot : SnapshotRef)
      → Triple Fails
          (At provisioned)
          (analyse lab journal k policy request scope environment snapshot)
          Reported
  unfolding analyse current Workflow.allows
  analyse-Triple request scope environment snapshot =
      bind-Triple Fails (At provisioned) (λ _. At baseline_validated) Reported _ _
        (run_baseline-Moves snapshot scope.workload_argv)
        (λ results.
          bind-Triple Fails (At baseline_validated) (λ _. At candidates_observed) Reported _ _
            (step lab journal k policy small _ _ refl)
            (λ _.
              bind-Triple Fails (At candidates_observed) (λ _. At candidates_observed) Reported _ _
                (experiments-Moves snapshot scope.workload_argv _ _ _)
                (λ _.
                  bind-Triple Fails (At candidates_observed) (λ _. At experiments_completed)
                    Reported _ _ (step lab journal k policy small _ _ refl)
                    (λ _.
                      bind-Triple Fails (At experiments_completed)
                        (λ o s.
                          Ready lab journal k policy small s
                          × Backed
                              (supports_experiments
                                (assess_baseline (map (λ r. r.trial_record.outcome) results)))
                              o)
                        Reported _ _ (world_stage-Ends lab journal k policy small snapshot scope _)
                        (λ world s h.
                          bind-Triple Fails (Ready lab journal k policy small) (λ _. At finalized)
                            Reported _ _ (finish-Triple lab journal k policy small environment)
                            (λ _ s' f. (f.0, omega (arith, f.1), f.2, h.1)) s h.0)))))

  prove-Triple :
      (request : ProveRequest)
      → Triple Fails (At created) (prove lab journal k policy request) Reported
  unfolding prove current
  prove-Triple request s h =
      bind-Triple Fails (At created) (λ _. At provisioned) Reported _ _
        (prepare-Moves _ request.provision_argv)
        (λ environment.
          bind-Triple Fails (At provisioned) (λ _. At provisioned) Reported _ _
            (freeze-Moves environment) (λ snapshot. analyse-Triple request _ environment snapshot))
        s h

  -- Whatever the two ports answer, `prove` does not panic: every step of its workflow is legal and
  -- the replay finds the trial that was reserved. When it returns, the workflow is finalized, the
  -- report lists as many trials as were executed, at most `max_trials`, and its world fits its
  -- baseline: none without a stable passing baseline, and a verified one only by an untreated trial
  -- that passed. When it fails, no more trials than `max_trials` were executed either.
  pub prove-Reported :
      (request : ProveRequest) (l : σ) (j : τ)
      → Meets Fails Reported (prove lab journal k policy request (initial l j))
  unfolding Workflow.new
  prove-Reported request l j = prove-Triple request (initial l j) (refl, refl, omega arith)
