-- ===== src/Application/Prove/Budget.antt =====
-- crates/ovid-application/src/prove.rs: the runner of trials keeps the budget.
use ovid.Prelude.{
  ℕ, zero, suc, ◌+◌, ◌^◌, ◌<◌, ◌≡◌, refl, true, false, Option, none, some, List, Text, arith, inl,
  inr, Bool-cases, leb, is_some,
}
use ovid.Domain.Trial.{TrialRecord, Treatment}
use ovid.Application.Workflow.{AnalysisState}
use ovid.Application.Ports.{
  Laboratory, Journal, SnapshotRef, JournalEvent, unsupported, preparation, execution, TrialResult,
}
use ovid.Application.Prove.{ProvePolicy, ProveError, lab_error, journal_error}
use ovid.Application.Prove.Run.{Run, Outcome, returned, failed, panicked, Action, executed, append}
use ovid.Application.Prove.Trials.{
  run_one, run_trial, run_trials, keep_result, caught, attempt, keep_record, hide_trials,
}
use ovid.Application.Prove.Triples.{
  Tracks, Left, Spent, Tracks-Spent, Meets, Triple, Keeps, Meets-mono, bind-Triple, bind-Keeps,
  pure-Keeps, when-Keeps, call_lab-Triple, append-Triple, count_trial-Triple, push_trial-Triple,
}

module _ {σ τ : Type 0} (lab : Laboratory σ) (journal : Journal τ) (policy : ProvePolicy)
    (snapshot : SnapshotRef) (argv : List Text) (small : policy.max_trials < 2 ^ 64) where
  -- The result is there, and the budget is kept.
  abbrev pub Ran : AnalysisState → Option TrialResult → Run σ τ → Type 0
  Ran w r s = Tracks policy.max_trials w 0 s × (is_some r ≡ true)

  -- An error of the laboratory leaves what there was before the trial.
  abbrev Precise : AnalysisState → ProveError → Run σ τ → Type 0
  Precise w (lab_error e) = Tracks policy.max_trials w 0
  Precise w (journal_error e) = Spent policy.max_trials (journal_error e)

  Precise-Spent :
      (w : AnalysisState) (e : ProveError) (s : Run σ τ)
      → Precise w e s
      → Spent policy.max_trials e s
  Precise-Spent w (lab_error e) s h = Tracks-Spent policy.max_trials w 0 (lab_error e) s h
  Precise-Spent w (journal_error e) s h = h

  append-Precise :
      (w : AnalysisState) (n : ℕ) (event : JournalEvent)
      → Keeps (Precise w) (Tracks policy.max_trials w n) (append journal event)
  append-Precise w n event =
      append-Triple (Precise w) journal (Tracks policy.max_trials w n) event (λ s j h. h)
        (λ e s h. Tracks-Spent policy.max_trials w n (journal_error e) s h)

  run_one-Triple :
      (w : AnalysisState) (label : Text) (treatment : Treatment)
      → Triple
          (Precise w)
          (Left policy.max_trials w)
          (run_one lab journal policy snapshot argv label treatment)
          (Ran w)
  unfolding run_one
  run_one-Triple w label treatment =
      let max = policy.max_trials in
      let F = Precise w in
      let one = Tracks max w 1 in
      bind-Triple F (Left max w) (λ _. Left max w) (Ran w) _ _
        (call_lab-Triple F (Left max w) _ (λ s l h. h) (λ e s h. h.0))
        (λ result.
          bind-Triple F (Left max w) (λ _. one) (Ran w) _ _ (count_trial-Triple max F w small)
            (λ _.
              bind-Triple F one (λ _. one) (Ran w) _ _ (append-Precise w 1 _)
                (λ _.
                  bind-Triple F one (λ _. one) (Ran w) _ _
                    (when-Keeps F one _ _
                      (bind-Keeps F one _ _ (append-Precise w 1 _) (λ _. pure-Keeps F one tt)))
                    (λ _.
                      bind-Triple F one (λ _. Tracks max w 0) (Ran w) _ _
                        (push_trial-Triple max F w result.trial_record) (λ _ s h. (h, refl))))))

  -- Within the budget a trial runs, so there is a result.
  pub run_trial-Left :
      (w : AnalysisState) (label : Text) (treatment : Treatment)
      → Triple
          (Spent policy.max_trials)
          (Left policy.max_trials w)
          (run_trial lab journal policy snapshot argv label treatment)
          (Ran w)
  unfolding run_trial executed
  run_trial-Left w label treatment s h =
      let left : leb policy.max_trials s.trials_executed ≡ false = ground (arith, h.1) in
      rw left (
        Meets-mono (Precise w) (Spent policy.max_trials) (Ran w) (Ran w) _ (λ r s' k. k)
          (Precise-Spent w) (run_one-Triple w label treatment s h))

  run_trial-Precise :
      (w : AnalysisState) (label : Text) (treatment : Treatment)
      → Keeps
          (Precise w)
          (Tracks policy.max_trials w 0)
          (run_trial lab journal policy snapshot argv label treatment)
  unfolding run_trial executed
  run_trial-Precise w label treatment s h =
      elim (Bool-cases (leb policy.max_trials s.trials_executed)) [
        | inl t ↦ rw t h
        | inr f ↦
            let left : s.trials_executed < policy.max_trials = ground arith in
            rw f (
              Meets-mono (Precise w) (Precise w) (Ran w) (λ _. Tracks policy.max_trials w 0) _
                (λ r s' k. k.0) (λ e s' k. k) (run_one-Triple w label treatment s (h, left)))
      ]

  pub run_trial-Keeps :
      (w : AnalysisState) (label : Text) (treatment : Treatment)
      → Keeps
          (Spent policy.max_trials)
          (Tracks policy.max_trials w 0)
          (run_trial lab journal policy snapshot argv label treatment)
  run_trial-Keeps w label treatment s h =
      Meets-mono (Precise w) (Spent policy.max_trials) (λ _. Tracks policy.max_trials w 0)
        (λ _. Tracks policy.max_trials w 0) _ (λ r s' k. k) (Precise-Spent w)
        (run_trial-Precise w label treatment s h)

  keep_result-Keeps :
      (P : Run σ τ → Type 0) (exhausted : Action σ τ (Unit {0}))
      (rest : Action σ τ (List TrialResult)) (r : Option TrialResult)
      → Keeps (Spent policy.max_trials) P exhausted
      → Keeps (Spent policy.max_trials) P rest
      → Keeps (Spent policy.max_trials) P (keep_result exhausted rest r)
  keep_result-Keeps P exhausted rest none h k =
      bind-Keeps (Spent policy.max_trials) P exhausted _ h (λ _ s p. p)
  keep_result-Keeps P exhausted rest (some r) h k =
      bind-Keeps (Spent policy.max_trials) P rest _ k (λ rs s p. p)

  pub run_trials-Keeps :
      (w : AnalysisState) (label : ℕ → Text) (treatment : Treatment)
      (exhausted : Action σ τ (Unit {0})) (runs index : ℕ)
      → Keeps (Spent policy.max_trials) (Tracks policy.max_trials w 0) exhausted
      → Keeps
          (Spent policy.max_trials)
          (Tracks policy.max_trials w 0)
          (run_trials lab journal policy snapshot argv label treatment exhausted runs index)
  unfolding run_trials
  run_trials-Keeps w label treatment exhausted zero index h = λ s p. p
  run_trials-Keeps w label treatment exhausted (suc runs) index h =
      bind-Keeps (Spent policy.max_trials) (Tracks policy.max_trials w 0) _ _
        (run_trial-Keeps w (label index) treatment)
        (λ r.
          keep_result-Keeps (Tracks policy.max_trials w 0) exhausted _ r h
            (run_trials-Keeps w label treatment exhausted runs (index + 1) h))

  caught-Meets :
      {A : Type 0} (w : AnalysisState) (o : Outcome σ τ A)
      → Meets (Precise w) (λ _. Tracks policy.max_trials w 0) o
      → Meets (Spent policy.max_trials) (λ _. Tracks policy.max_trials w 0) (caught o)
  caught-Meets w (returned a s) h = h
  caught-Meets w (failed (lab_error (unsupported reason)) s) h = h
  caught-Meets w (failed (lab_error (preparation reason)) s) h =
      Precise-Spent w (lab_error (preparation reason)) s h
  caught-Meets w (failed (lab_error (execution reason)) s) h =
      Precise-Spent w (lab_error (execution reason)) s h
  caught-Meets w (failed (journal_error e) s) h = h
  caught-Meets w panicked h = h

  keep_record-Keeps :
      (P : Run σ τ → Type 0) (rest : Action σ τ (List TrialRecord × Option Text))
      (r : Option (Option TrialResult) × Option Text)
      → Keeps (Spent policy.max_trials) P rest
      → Keeps (Spent policy.max_trials) P (keep_record rest r)
  keep_record-Keeps P rest (r, some reason) k = λ s p. p
  keep_record-Keeps P rest (some (some r), none) k =
      bind-Keeps (Spent policy.max_trials) P rest _ k (λ rs s p. p)
  keep_record-Keeps P rest (some none, none) k = λ s p. p
  keep_record-Keeps P rest (none, none) k = λ s p. p

  pub hide_trials-Keeps :
      (w : AnalysisState) (label : ℕ → Text) (treatment : Treatment) (runs index : ℕ)
      → Keeps
          (Spent policy.max_trials)
          (Tracks policy.max_trials w 0)
          (hide_trials lab journal policy snapshot argv label treatment runs index)
  unfolding hide_trials attempt
  hide_trials-Keeps w label treatment zero index = λ s p. p
  hide_trials-Keeps w label treatment (suc runs) index =
      bind-Keeps (Spent policy.max_trials) (Tracks policy.max_trials w 0) _ _
        (λ s h. caught-Meets w _ (run_trial-Precise w (label index) treatment s h))
        (λ r.
          keep_record-Keeps (Tracks policy.max_trials w 0) _ r
            (hide_trials-Keeps w label treatment runs (index + 1)))
