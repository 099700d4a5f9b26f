-- ===== src/Application/Prove/Screen.antt =====
-- crates/ovid-application/src/prove.rs: the counterfactuals, the deny-all-egress screen of the
-- network dependencies, and the isolation of one at a time.
use ovid.Prelude.{
  ◌+◌, Bool, true, false, not, ◌&&◌, none, some, List, [], ◌∷◌, ◌++◌, map, Text, lit, show, join,
  length, any, find, keep_if, is_empty, ltb,
}
use ovid.Domain.Dependency.{DependencyKey, network, executable_key, key_beq}
use ovid.Domain.Trial.{deny_all_egress, block_dependency, TrialRecord, CandidateEvidence}
use ovid.Domain.Baseline.{BaselineVerdict}
use ovid.Domain.Classify.{
  classify_intervention, classify_enforced_deny, classify_natural_counterfactual,
  classify_unenforceable, all_failed,
}
use ovid.Application.Ports.{
  Laboratory, Journal, SnapshotRef, TrialResult, NetworkCandidate, ExecutableCandidate,
  merge_candidates, can_enforce,
}
use ovid.Application.Prove.{ProvePolicy}
use ovid.Application.Prove.Run.{
  Action, pure, ◌>>=◌, when, choose, limit, executed, capabilities, journal_conclusions, usize,
}
use ovid.Application.Prove.Trials.{run_trials}

unfoldable pub network_evidence : NetworkCandidate → Bool → CandidateEvidence
network_evidence c unavailable = record {
  key = c.key;
  externally_controlled = c.externally_controlled;
  unavailable_under_treatment = unavailable;
  attempted_in_baseline = true;
}

unfoldable pub executable_evidence : Text → Bool → CandidateEvidence
executable_evidence name unavailable = record {
  key = executable_key name;
  externally_controlled = true;
  unavailable_under_treatment = unavailable;
  attempted_in_baseline = true;
}

-- The evidence of an unstable baseline: nothing was varied.
unfoldable pub observed_evidence :
    List NetworkCandidate → List ExecutableCandidate → List CandidateEvidence
observed_evidence networks executables =
    map (λ c. network_evidence c false) networks
    ++ map (λ e. executable_evidence e.name (not e.found)) executables

-- Step 1a.
unfoldable pub enforced_evidence : List NetworkCandidate → List CandidateEvidence
enforced_evidence networks =
    map (λ c. network_evidence c true)
      (keep_if (λ c. c.all_failed && c.enforced_unavailable) networks)

-- Step 1b.
unfoldable pub natural_evidence :
    List NetworkCandidate → List ExecutableCandidate → List CandidateEvidence
natural_evidence networks executables =
    map (λ c. network_evidence c true)
      (keep_if (λ c. c.all_failed && not c.enforced_unavailable) networks)
    ++ map (λ e. executable_evidence e.name true) (keep_if (λ e. not e.found) executables)

-- What the variant runs say of a screened dependency.
unfoldable pub screened_evidence : List NetworkCandidate → NetworkCandidate → CandidateEvidence
screened_evidence variant_merged c =
    network_evidence c (elim (find (λ v. key_beq v.key c.key) variant_merged) [
      | none ↦ true
      | some v ↦ v.all_failed
    ])

unfoldable pub changed_candidates :
    List CandidateEvidence → List NetworkCandidate → List NetworkCandidate
changed_candidates evidence screened =
    keep_if (λ c. any (λ e. key_beq e.key c.key && e.unavailable_under_treatment) evidence) screened

-- The key of the treatment that `can_isolate` asks for.
abbrev pub first_key : List NetworkCandidate → DependencyKey
first_key [] = network (lit "placeholder:0")
first_key (c ∷ changed) = c.key

abbrev pub dropped_evidence : Text → CandidateEvidence
dropped_evidence identity = record {
  key = network identity;
  externally_controlled = true;
  unavailable_under_treatment = false;
  attempted_in_baseline = true;
}

abbrev pub records : List TrialResult → List TrialRecord
records results = map (λ r. r.trial_record) results

module _ {σ τ : Type 0} (journal : Journal τ) (baseline : BaselineVerdict) where
  -- Steps 1a and 1b.
  unfoldable pub reuse_counterfactuals :
      List Text → List NetworkCandidate → List ExecutableCandidate → Action σ τ (Unit {0})
  reuse_counterfactuals labels networks executables = do
    let enforced = enforced_evidence networks
    _ ←
        when (not (is_empty enforced))
          (journal_conclusions journal (classify_enforced_deny baseline labels enforced))
    let natural = natural_evidence networks executables
    when (not (is_empty natural))
        (journal_conclusions journal (classify_natural_counterfactual baseline labels natural))

module _ {σ τ : Type 0} (lab : Laboratory σ) (journal : Journal τ) (policy : ProvePolicy)
    (snapshot : SnapshotRef) (argv : List Text) (baseline : BaselineVerdict) where
  -- One candidate of the isolation.
  unfoldable pub isolate_one : NetworkCandidate → Action σ τ (Unit {0})
  isolate_one c = do
    results ←
        run_trials lab journal policy snapshot argv
          (λ index. lit "block-" ++ (c.key.logical_identity ++ (lit "-" ++ show index)))
          (block_dependency c.key) (pure tt) (usize (1 + policy.confirmation_runs)) 1
    journal_conclusions journal
        (classify_intervention baseline (records results) (network_evidence c true ∷ []))

  -- The loop over the candidates; its result is `dropped`.
  unfoldable pub isolate_each : List NetworkCandidate → Action σ τ (List Text)
  isolate_each [] = pure []
  isolate_each (c ∷ cs) = do
    n ← executed
    choose (ltb policy.max_trials (usize (n + usize (1 + policy.confirmation_runs) + 1)))
        (do dropped ← isolate_each cs; pure (c.key.logical_identity ∷ dropped))
        (do _ ← isolate_one c; isolate_each cs)

  unfoldable pub leave_dropped : List Text → Action σ τ (Unit {0})
  leave_dropped [] = pure tt
  leave_dropped (identity ∷ dropped) = do
    _ ←
        journal_conclusions journal
          (classify_intervention baseline [] (dropped_evidence identity ∷ []))
    leave_dropped dropped

  unfoldable pub isolate : List NetworkCandidate → Action σ τ (Unit {0})
  isolate changed = do
    dropped ← isolate_each changed
    when (not (is_empty dropped)) (do
      _ ← limit (
          lit "trial budget reached before per-dependency isolation of: "
          ++ (join (lit ", ") dropped ++ lit " (raise --max-trials to resolve them)"))
      leave_dropped dropped)

  -- After the variant runs.
  unfoldable pub judge_variants : List NetworkCandidate → List TrialResult → Action σ τ (Unit {0})
  judge_variants screened results = do
    caps ← capabilities lab
    let merged = merge_candidates (map (λ r. r.observations) results)
    let evidence = map (screened_evidence merged) screened
    let variants = records results
    let changed = changed_candidates evidence screened
    choose
        (not (is_empty variants)
          && (all_failed variants
              && (ltb 1 (length changed)
                  && can_enforce caps (block_dependency (first_key changed)))))
        (isolate changed)
        (journal_conclusions journal (classify_intervention baseline variants evidence))

  abbrev deny_reason : Text
  deny_reason = lit "this laboratory cannot enforce deny-all egress"

  unfoldable pub intervene : List NetworkCandidate → Action σ τ (Unit {0})
  intervene screened = do
    results ←
        run_trials lab journal policy snapshot argv (λ index. lit "no-egress-" ++ show index)
          deny_all_egress (limit (lit "trial budget exhausted during intervention"))
          (usize (1 + policy.confirmation_runs)) 1
    judge_variants screened results

  -- Step 2.
  unfoldable pub screen_networks : List NetworkCandidate → Action σ τ (Unit {0})
  screen_networks screened = when (not (is_empty screened)) (do
    caps ← capabilities lab
    choose (not (can_enforce caps deny_all_egress))
        (do
          _ ← limit (
              deny_reason
              ++ lit
                  "; every network candidate stays unresolved (the experiment is never silently weakened)")
          journal_conclusions journal (
              classify_unenforceable (map (λ c. network_evidence c false) screened) deny_all_egress
                deny_reason))
        (intervene screened))
