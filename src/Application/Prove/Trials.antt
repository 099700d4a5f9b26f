-- ===== src/Application/Prove/Trials.antt =====
-- crates/ovid-application/src/prove.rs: the budget-aware runner of trials and its loops.
use ovid.Prelude.{ℕ, zero, suc, ◌+◌, not, Option, none, some, List, [], ◌∷◌, Text, leb, is_empty}
use ovid.Domain.Trial.{Treatment, TrialRecord}
use ovid.Application.Ports.{
  Laboratory, Journal, SnapshotRef, TrialResult, unsupported, trial_completed, egress_observed,
}
use ovid.Application.Prove.{ProvePolicy, lab_error}
use ovid.Application.Prove.Run.{
  Outcome, returned, failed, panicked, Action, pure, ◌>>=◌, when, choose, call_lab, count_trial,
  push_trial, append, executed,
}

module _ {σ τ : Type 0} where
  -- A round of a loop over trials, and the rounds after it.
  abbrev pub keep_result :
      Action σ τ (Unit {0})
      → Action σ τ (List TrialResult)
      → Option TrialResult
      → Action σ τ (List TrialResult)
  keep_result exhausted rest none = do _ ← exhausted; pure []
  keep_result exhausted rest (some result) = do results ← rest; pure (result ∷ results)

  -- `Err(ProveError::Lab(LabError::Unsupported(reason)))` is caught.
  abbrev pub caught : {A : Type 0} → Outcome σ τ A → Outcome σ τ (Option A × Option Text)
  caught (returned a s) = returned (some a, none) s
  caught (failed (lab_error (unsupported reason)) s) = returned (none, some reason) s
  caught (failed e s) = failed e s
  caught panicked = panicked

  unfoldable pub attempt : {A : Type 0} → Action σ τ A → Action σ τ (Option A × Option Text)
  attempt m s = caught (m s)

  -- A round of the loop over the trials that hide one executable.
  abbrev pub keep_record :
      Action σ τ (List TrialRecord × Option Text)
      → Option (Option TrialResult) × Option Text
      → Action σ τ (List TrialRecord × Option Text)
  keep_record rest (r, some reason) = pure ([], some reason)
  keep_record rest (some (some result), none) = do
    records ← rest
    pure (result.trial_record ∷ records.0, records.1)
  keep_record rest (_, none) = pure ([], none)

module _ {σ τ : Type 0} (lab : Laboratory σ) (journal : Journal τ) (policy : ProvePolicy)
    (snapshot : SnapshotRef) (argv : List Text) where
  -- Past the budget check.
  unfoldable pub run_one : Text → Treatment → Action σ τ (Option TrialResult)
  run_one label treatment = do
    result ← call_lab (
        lab.run_trial snapshot (record {
          label = label;
          argv = argv;
          treatment = treatment;
          timeout_seconds = policy.timeout_seconds;
        }))
    _ ← count_trial
    _ ←
        append journal (
          trial_completed result.trial_record result.exit_code result.duration_ms
            result.output_tail)
    _ ← when (not (is_empty result.observations.egress_intents)) (do
      _ ←
          append journal
            (egress_observed result.trial_record.label result.observations.egress_intents)
      pure tt)
    _ ← push_trial result.trial_record
    pure (some result)

  unfoldable pub run_trial : Text → Treatment → Action σ τ (Option TrialResult)
  run_trial label treatment = do
    n ← executed
    choose (leb policy.max_trials n) (pure none) (run_one label treatment)

  -- `for index in 1..=runs`, given the runs to go and the index; `exhausted` is what the loop does
  -- before it breaks.
  unfoldable pub run_trials :
      (ℕ → Text) → Treatment → Action σ τ (Unit {0}) → ℕ → ℕ → Action σ τ (List TrialResult)
  run_trials label treatment exhausted zero index = pure []
  run_trials label treatment exhausted (suc runs) index = do
    result ← run_trial (label index) treatment
    keep_result exhausted (run_trials label treatment exhausted runs (index + 1)) result

  unfoldable pub hide_trials :
      (ℕ → Text) → Treatment → ℕ → ℕ → Action σ τ (List TrialRecord × Option Text)
  hide_trials label treatment zero index = pure ([], none)
  hide_trials label treatment (suc runs) index = do
    result ← attempt (run_trial (label index) treatment)
    keep_record (hide_trials label treatment runs (index + 1)) result
