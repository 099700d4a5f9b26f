-- ===== src/Domain/Classify/Justified.antt =====
-- What an experiment must have shown for a causal label, independent of how the classifier tests it.
use ovid.Prelude.{◌≡◌, ◌≢◌, true, false, List, [], some, In, OnlyOne, Text}
use ovid.Domain.Trial.{TrialRecord, CandidateEvidence, enforced}
use ovid.Domain.Baseline.{BaselineVerdict, supports_experiments}

-- The candidate is outside the workload's control, was used in the baseline, and every attempt
-- failed under the treatment.
pub record Changed (c : CandidateEvidence) : Type 0 where
  pub external : c.externally_controlled ≡ true
  pub unavailable : c.unavailable_under_treatment ≡ true
  pub attempted : c.attempted_in_baseline ≡ true

-- A stable passing baseline and at least one trial, every trial enforced.
pub record Controlled (b : BaselineVerdict) (ts : List TrialRecord) : Type 0 where
  pub supported : supports_experiments b ≡ true
  pub ran : ts ≢ []
  pub held : (t : TrialRecord) → In t ts → t.enforcement.status ≡ enforced

-- Every trial failed, the signatures that were recorded agree, and the candidate's key is that of
-- the one candidate that changed.
pub record ProvenRequired (b : BaselineVerdict) (ts : List TrialRecord)
    (cs : List CandidateEvidence) (c : CandidateEvidence) : Type 0 where
  pub controlled : Controlled b ts
  pub failed : (t : TrialRecord) → In t ts → t.outcome.passed ≡ false
  pub agreed :
      (t u : TrialRecord) (s r : Text)
      → In t ts
      → In u ts
      → t.outcome.failure_signature ≡ some s
      → u.outcome.failure_signature ≡ some r
      → s ≡ r
  pub alone : (only : CandidateEvidence) × OnlyOne Changed only cs × (only.key ≡ c.key)

-- Every trial passed while the candidate, outside the workload's control, was unavailable.
pub record ProvenOptional (b : BaselineVerdict) (ts : List TrialRecord) (c : CandidateEvidence)
    : Type 0 where
  pub controlled : Controlled b ts
  pub passed : (t : TrialRecord) → In t ts → t.outcome.passed ≡ true
  pub external : c.externally_controlled ≡ true
  pub unavailable : c.unavailable_under_treatment ≡ true
