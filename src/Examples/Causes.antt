-- ===== src/Examples/Causes.antt =====
-- crates/ovid-domain and crates/ovid-core at concrete inputs.
use mathlib.Core.List.Perm
use ovid.Prelude.{
  ℕ, ◌≤◌, ◌≡◌, refl, ◌≢◌, ◌↔◌, true, false, some, List, [], ◌∷◌, map, Text, lit, length, get_elem?,
  In, here, option_beq, list_beq,
}
use ovid.Prelude.Order.{text_order}
use ovid.Core.Id.{IdGenerator}
use ovid.Domain.Dependency.{key_order, DependencyKey, network, key_beq, kind_rank}
use ovid.Domain.Trial.{
  TrialRecord, TrialOutcome, Treatment, is_enforced, unchanged, deny_all_egress, enforced_by,
  passing, failing, CandidateEvidence,
}
use ovid.Domain.Baseline.{BaselineVerdict, stable_passing, supports_experiments, assess_baseline}
use ovid.Domain.Baseline.Verdicts.{assess_baseline-passing_iff}
use ovid.Domain.Classify.{
  CausalConclusion, classify_intervention, classify_natural_counterfactual, classify_enforced_deny,
  required, optional, unresolved,
}
use ovid.Domain.Classify.Justified.{ProvenRequired, ProvenOptional}
use ovid.Domain.Classify.Labels.{
  required_iff, optional_iff, classify_intervention_backing, counterfactual_sound,
  counterfactual_complete,
}
use ovid.Domain.Scope.{AnalysisScope}
use ovid.Domain.World.{WorldCandidate, Codec, propose, from_clean_replay}
use ovid.Domain.World.Verification.{propose-eq_of_perm, from_clean_replay_iff}

abbrev database : CandidateEvidence
database = record {
  key = network (lit "db:5432");
  externally_controlled = true;
  unavailable_under_treatment = true;
  attempted_in_baseline = true;
}

abbrev trial : Text → Treatment → TrialOutcome → TrialRecord
trial label treatment outcome = record {
  label = label;
  treatment = treatment;
  enforcement = enforced_by treatment (lit "gateway");
  outcome = outcome;
  evidence = [];
}

abbrev denied : List TrialRecord
denied =
    trial (lit "no-egress-1") deny_all_egress (failing (lit "refused"))
    ∷ trial (lit "no-egress-2") deny_all_egress (failing (lit "refused"))
    ∷ []

abbrev tolerated : List TrialRecord
tolerated = trial (lit "no-egress-1") deny_all_egress passing ∷ []

abbrev two_passed : BaselineVerdict
two_passed = stable_passing 2

abbrev candidates : List CandidateEvidence
candidates = database ∷ []

required_iff_example :
    (d : CausalConclusion) × (get_elem? (classify_intervention two_passed denied candidates) 0
      ≡ some d)
    × (d.dependency ≡ database.key)
    × ((d.necessity ≡ required) ↔ ProvenRequired two_passed denied candidates database)
required_iff_example = required_iff two_passed denied candidates 0 refl

optional_iff_example :
    (d : CausalConclusion) × (get_elem? (classify_intervention two_passed tolerated candidates) 0
      ≡ some d)
    × (d.dependency ≡ database.key)
    × ((d.necessity ≡ optional) ↔ ProvenOptional two_passed tolerated database)
optional_iff_example = optional_iff two_passed tolerated candidates 0 refl

-- The label that the denied trials give.
denied_label :
    map (λ d. d.necessity) (classify_intervention two_passed denied candidates) ≡ required ∷ []
unfolding classify_intervention supports_experiments is_enforced enforced_by option_beq list_beq lit
    key_beq kind_rank network
denied_label = refl

abbrev first_of : List CausalConclusion → CausalConclusion
first_of [] = record {
  dependency = database.key;
  necessity = unresolved;
  reason = [];
  trials = [];
  confidence = 0;
}
first_of (d ∷ ds) = d

abbrev denied_conclusion : CausalConclusion
denied_conclusion = first_of (classify_intervention two_passed denied candidates)

classify_intervention_backing_example :
    (c : CandidateEvidence) × In c candidates
    × (denied_conclusion.dependency ≡ c.key)
    × (denied_conclusion.necessity ≢ unresolved
        → (denied_conclusion.trials ≡ map (λ t. t.label) denied)
          × (75 ≤ denied_conclusion.confidence))
    × (denied_conclusion.necessity ≡ unresolved
        → (denied_conclusion.trials ≡ []) × (denied_conclusion.confidence ≡ 0))
unfolding classify_intervention supports_experiments is_enforced enforced_by option_beq list_beq lit
    key_beq kind_rank network
classify_intervention_backing_example =
    classify_intervention_backing two_passed denied candidates denied_conclusion (here refl)

abbrev baseline_labels : List Text
baseline_labels = lit "baseline-1" ∷ lit "baseline-2" ∷ []

abbrev reused : CausalConclusion
reused = first_of (classify_natural_counterfactual two_passed baseline_labels candidates)

counterfactual_sound_example :
    (supports_experiments two_passed ≡ true)
    × (reused.necessity ≡ optional)
    × (reused.trials ≡ baseline_labels)
    × ((c : CandidateEvidence) × In c candidates
        × (reused.dependency ≡ c.key)
        × (c.externally_controlled ≡ true)
        × (c.unavailable_under_treatment ≡ true))
unfolding classify_natural_counterfactual
counterfactual_sound_example =
    counterfactual_sound two_passed baseline_labels candidates reused (here refl)

counterfactual_complete_example :
    In database.key (
      map
        (λ d. d.dependency)
        (classify_natural_counterfactual two_passed baseline_labels candidates))
    × In database.key
        (map (λ d. d.dependency) (classify_enforced_deny two_passed baseline_labels candidates))
unfolding supports_experiments
counterfactual_complete_example =
    counterfactual_complete two_passed baseline_labels candidates database refl (here refl) refl
      refl

abbrev outcomes : List TrialOutcome
outcomes = passing ∷ passing ∷ []

assess_baseline-passing_iff_example : (assess_baseline outcomes ≡ stable_passing 2) ↔ (
    (outcomes ≢ [])
    × (2 ≡ length outcomes)
    × ((o : TrialOutcome) → In o outcomes → o.passed ≡ true))
assess_baseline-passing_iff_example = assess_baseline-passing_iff outcomes 2

abbrev failures : List TrialOutcome
failures = failing (lit "exit 1") ∷ failing (lit "exit 1") ∷ []

abbrev replay : TrialRecord
replay = trial (lit "replay") unchanged passing

from_clean_replay_iff_example :
    (from_clean_replay replay ≡ some (record { trial = replay }))
    ↔ ((unchanged ≡ unchanged) × (true ≡ true) × (replay ≡ replay))
from_clean_replay_iff_example = from_clean_replay_iff replay (record { trial = replay })

abbrev codec : Codec
codec = record { sha256_hex = λ t. t; scope_json = λ s. s.repository; world_json = λ w d. d }

abbrev scope : AnalysisScope
scope = record {
  repository = lit "repo";
  revision = lit "1";
  workload = lit "test";
  workload_argv = lit "make" ∷ [];
  environment_digest = [];
  success_predicate = lit "exit 0";
  execution_policy = [];
  observer = [];
  experiment_policy = [];
}

abbrev world : List DependencyKey → WorldCandidate
world keys = record {
  required = keys;
  optional = [];
  unresolved = [];
  workload_argv = lit "make" ∷ [];
  environment = [];
}

abbrev cache : DependencyKey
cache = network (lit "cache:6379")

propose-eq_of_perm_example :
    propose codec (world (database.key ∷ cache ∷ [])) scope
    ≡ propose codec (world (cache ∷ database.key ∷ [])) scope
propose-eq_of_perm_example =
    propose-eq_of_perm codec (world (database.key ∷ cache ∷ [])) (world (cache ∷ database.key ∷ []))
      scope (Perm.swap cache database.key []) (Perm.refl []) (Perm.refl []) refl refl

abbrev generator : ℕ → IdGenerator
generator counter = record { counter = counter; deterministic = false }
