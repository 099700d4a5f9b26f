-- ===== src/Domain/Classify.antt =====
-- crates/ovid-domain/src/classify.rs: the only producer of causal labels. A confidence is counted
-- in hundredths: the classifier assigns 0.0, 0.75 and 0.9 only.
pub mod Justified
pub mod Changes
pub mod Intervention
pub mod Labels
use ovid.Prelude.{
  ℕ, Bool, true, false, not, ◌&&◌, ◌||◌, Option, none, some, List, [], ◌∷◌, ◌++◌, map, Text, lit,
  show, join, length, all, any, find, keep_if, is_empty, is_none, option_text_eq, leb, nat_beq,
  if◌then◌else◌,
}
use ovid.Domain.Dependency.{DependencyKey, key_eq}
use ovid.Domain.Trial
use ovid.Domain.Trial.{Treatment, TrialRecord, CandidateEvidence, is_enforced}
use ovid.Domain.Baseline
use ovid.Domain.Baseline.{
  BaselineVerdict, stable_passing, stable_failing, unstable, supports_experiments,
}

pub data Necessity : Type 0 where
  required optional unresolved : Necessity

pub record CausalConclusion : Type 0 where
  pub dependency : DependencyKey
  pub necessity : Necessity
  pub reason : Text
  pub trials : List Text
  pub confidence : ℕ

-- `fn unresolved`
unfoldable pub leave_unresolved : DependencyKey → Text → CausalConclusion
leave_unresolved key reason = record {
  dependency = key;
  necessity = unresolved;
  reason = reason;
  trials = [];
  confidence = 0;
}

-- One reason for every candidate.
abbrev pub leave : Text → CandidateEvidence → CausalConclusion
leave reason c = leave_unresolved c.key reason

unfoldable pub classify_unenforceable :
    List CandidateEvidence → Treatment → Text → List CausalConclusion
classify_unenforceable candidates treatment reason =
    map
      (leave (
        lit "treatment `"
        ++ (Trial.describe treatment ++ (lit "` could not be enforced: " ++ reason))))
      candidates

abbrev pub confidence_of_runs : ℕ → ℕ
confidence_of_runs runs = if leb 2 runs then 90 else 75

-- Unavailability that the evidence demonstrates.
abbrev pub demonstrated : CandidateEvidence → Bool
demonstrated c = c.externally_controlled && c.unavailable_under_treatment

-- What the two counterfactual classifiers share: they differ in the reason's last words.
counterfactual : Text → BaselineVerdict → List Text → List CandidateEvidence → List CausalConclusion
counterfactual how (stable_passing runs) baseline_trials candidates =
    map
      (λ candidate. record {
        dependency = candidate.key;
        necessity = optional;
        reason = lit "workload passed " ++ (show runs ++ (lit "/" ++ (show runs ++ how)));
        trials = baseline_trials;
        confidence = confidence_of_runs runs;
      })
      (keep_if demonstrated candidates)
counterfactual how _ baseline_trials candidates = []

unfoldable pub classify_natural_counterfactual :
    BaselineVerdict → List Text → List CandidateEvidence → List CausalConclusion
unfolding counterfactual
classify_natural_counterfactual = counterfactual (
    lit
      " baseline runs while this dependency was demonstrably unavailable (natural counterfactual)")

unfoldable pub classify_enforced_deny :
    BaselineVerdict → List Text → List CandidateEvidence → List CausalConclusion
unfolding counterfactual
classify_enforced_deny = counterfactual (
    lit
      " baseline runs while the laboratory gateway enforced a deny posture and refused this dependency (nothing was contacted)")

-- The first failure signature among the trials (`find_map`).
pub first_signature : List TrialRecord → Option Text
first_signature [] = none
first_signature (t ∷ ts) = elim t.outcome.failure_signature [
  | some s ↦ some s
  | none ↦ first_signature ts
]

pub signatures_compatible : List TrialRecord → Bool
unfolding first_signature
signatures_compatible trials =
    let first = first_signature trials in
    all
      (λ t.
        t.outcome.passed
        || (is_none t.outcome.failure_signature
            || option_text_eq.beq t.outcome.failure_signature first))
      trials

abbrev pub all_passed : List TrialRecord → Bool
all_passed = all (λ t. t.outcome.passed)

abbrev pub all_failed : List TrialRecord → Bool
all_failed = all (λ t. not t.outcome.passed)

-- `trials[0].treatment.describe()`: every caller has checked that there is a trial.
first_treatment : List TrialRecord → Text
first_treatment [] = []
first_treatment (t ∷ _) = Trial.describe t.treatment

-- The passing branch, for one candidate.
passed_verdict : List TrialRecord → CandidateEvidence → CausalConclusion
passed_verdict trials candidate =
    if demonstrated candidate
    then (record {
      dependency = candidate.key;
      necessity = optional;
      reason =
          lit "workload passed "
          ++ (show (length trials)
              ++ (lit "/"
                  ++ (show (length trials)
                      ++ (lit
                            " trials while this dependency was demonstrably unavailable (treatment: "
                          ++ (first_treatment trials ++ lit ")")))));
      trials = map (λ t. t.label) trials;
      confidence = confidence_of_runs (length trials);
    })
    else leave_unresolved candidate.key (
        lit
          "workload passed under treatment, but this dependency's unavailability was not demonstrated")

-- The candidates whose availability demonstrably changed.
abbrev pub changed_set : List CandidateEvidence → List CandidateEvidence
changed_set = keep_if (λ c. demonstrated c && c.attempted_in_baseline)

-- The failing branch, for one candidate.
failed_verdict : List TrialRecord → List CandidateEvidence → CandidateEvidence → CausalConclusion
failed_verdict trials changed candidate =
    let single_change = nat_beq (length changed) 1 in
    let in_changed_set = any (λ c. key_eq.beq c.key candidate.key) changed in
    if single_change && in_changed_set
    then (record {
      dependency = candidate.key;
      necessity = required;
      reason =
          lit "stable baseline passed; enforced `"
          ++ (first_treatment trials
              ++ (lit "` failed "
                  ++ (show (length trials)
                      ++ (lit "/"
                          ++ (show (length trials)
                              ++ lit " trials while only this dependency changed availability")))));
      trials = map (λ t. t.label) trials;
      confidence = confidence_of_runs (length trials);
    })
    else if in_changed_set
    then leave_unresolved candidate.key (
        lit "workload failed under `"
        ++ (first_treatment trials
            ++ (lit "`, but "
                ++ (show (length changed)
                    ++ lit
                        " dependencies changed availability together; per-dependency causality needs individual variation"))))
    else leave_unresolved candidate.key (
        lit
          "workload failed under treatment, but this dependency's availability did not demonstrably change")

-- Rule 2 and what follows it: every trial was enforced.
classify_enforced_trials : List TrialRecord → List CandidateEvidence → List CausalConclusion
unfolding signatures_compatible passed_verdict failed_verdict first_treatment
classify_enforced_trials trials candidates =
    if not (all_passed trials || (all_failed trials && signatures_compatible trials))
    then map (leave (lit "variant runs disagreed with each other (unstable under treatment)"))
        candidates
    else if all_passed trials
    then map (passed_verdict trials) candidates
    else map (failed_verdict trials (changed_set candidates)) candidates

-- Rule 1: the first trial that was not enforced, if any.
classify_trials :
    Option TrialRecord → List TrialRecord → List CandidateEvidence → List CausalConclusion
unfolding classify_enforced_trials
classify_trials (some bad) trials candidates =
    map
      (leave (
        lit "treatment `"
        ++ (Trial.describe bad.treatment
            ++ (lit "` was not enforced in trial "
                ++ (bad.label
                    ++ (lit " (" ++ (join (lit "; ") bad.enforcement.limitations ++ lit ")")))))))
      candidates
classify_trials none trials candidates = classify_enforced_trials trials candidates

unfoldable pub classify_intervention :
    BaselineVerdict → List TrialRecord → List CandidateEvidence → List CausalConclusion
unfolding classify_trials
classify_intervention baseline trials candidates =
    if not (supports_experiments baseline)
    then map
        (leave (lit "baseline is not stable-passing (" ++ (Baseline.describe baseline ++ lit ")")))
        candidates
    else if is_empty trials
    then map (leave (lit "no trials executed (experiment budget exhausted)")) candidates
    else classify_trials (find (λ t. not (is_enforced t.enforcement.status)) trials) trials
        candidates
