-- ===== src/Domain/Baseline/Verdicts.antt =====
-- crates/ovid-domain/src/baseline.rs: what each verdict says of the runs.
use ovid.Prelude.{
  ℕ, ◌≡◌, refl, ◌≢◌, ◌↔◌, ◌⊎◌, true, false, not, ◌||◌, Option, none, List, [], ◌∷◌, Text, arith,
  length, In, all-true, true-all, option_text_eq, is_none,
}
use ovid.Domain.Trial.{TrialOutcome}
use ovid.Domain.Baseline.{stable_passing, stable_failing, assess_baseline, compatible}

-- The verdict is stable passing, of that number of runs, exactly when there are runs, they are as
-- many, and all of them passed.
pub assess_baseline-passing_iff :
    (os : List TrialOutcome) (n : ℕ)
    → (assess_baseline os ≡ stable_passing n)
      ↔ ((os ≢ []) × (n ≡ length os) × ((o : TrialOutcome) → In o os → o.passed ≡ true))
unfolding assess_baseline
assess_baseline-passing_iff [] n = (λ h. cc, λ h. absurd (h.0 refl))
assess_baseline-passing_iff (x ∷ xs) n = (
  λ h. (λ e. cc, ground arith, λ o m. all-true (λ o. o.passed) (x ∷ xs) (ground arith) m),
  λ h. ground (arith, h.1, true-all (λ (o : TrialOutcome). o.passed) (x ∷ xs) h.2),
)

-- A stable failing verdict: there are runs, all of them failed, and each recorded signature is the
-- one that the verdict carries.
assess_baseline-failing :
    (os : List TrialOutcome) (n : ℕ) (signature : Option Text)
    → assess_baseline os ≡ stable_failing n signature
    → (os ≢ [])
      × (n ≡ length os)
      × ((o : TrialOutcome)
          → In o os
          → (o.passed ≡ false) × ((o.failure_signature ≡ signature) ⊎ (o.failure_signature ≡ none)))
unfolding assess_baseline compatible
assess_baseline-failing [] n signature h = cc
assess_baseline-failing (x ∷ xs) n signature h = (λ e. cc, ground arith, λ o m. one o m)
  where
    one :
        (o : TrialOutcome)
        → In o (x ∷ xs)
        → (o.passed ≡ false) × ((o.failure_signature ≡ signature) ⊎ (o.failure_signature ≡ none))
    one o m =
        let fails = all-true (λ (o : TrialOutcome). not o.passed) (x ∷ xs) (ground arith) m in
        let same =
          all-true
            (λ (o : TrialOutcome).
              option_text_eq.beq o.failure_signature x.failure_signature
              || is_none o.failure_signature)
            (x ∷ xs) (ground arith) m in
        (
          ground arith,
          ground (arith, option_text_eq.beq_iff o.failure_signature x.failure_signature),
        )
