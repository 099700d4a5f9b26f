-- ===== src/Domain/Baseline.antt =====
-- crates/ovid-domain/src/baseline.rs: the verdict over repeated baseline runs.
pub mod Verdicts
use ovid.Prelude.{
  ℕ, Bool, true, false, not, ◌||◌, Option, none, some, List, [], ◌∷◌, ◌++◌, Text, lit, show, length,
  all, is_none, option_text_eq, if◌then◌else◌,
}
use ovid.Domain.Trial.{TrialOutcome}

pub data BaselineVerdict : Type 0 where
  stable_passing : ℕ → BaselineVerdict
  stable_failing : ℕ → Option Text → BaselineVerdict
  unstable : ℕ → BaselineVerdict

unfoldable pub supports_experiments : BaselineVerdict → Bool
supports_experiments (stable_passing runs) = true
supports_experiments _ = false

signature_suffix : Option Text → Text
signature_suffix none = []
signature_suffix (some s) = lit ": " ++ s

unfoldable pub describe : BaselineVerdict → Text
unfolding signature_suffix
describe (stable_passing runs) =
    lit "stable (" ++ (show runs ++ (lit "/" ++ (show runs ++ lit " passed)")))
describe (stable_failing runs signature) =
    lit "failing ("
    ++ (show runs
        ++ (lit "/" ++ (show runs ++ (lit " failed" ++ (signature_suffix signature ++ lit ")")))))
describe (unstable runs) = lit "unstable across " ++ (show runs ++ lit " runs")

abbrev signature_eq : Option Text → Option Text → Bool
signature_eq = option_text_eq.beq

-- `signature` is the first run's.
compatible : Option Text → List TrialOutcome → Bool
compatible signature =
    all (λ o. signature_eq o.failure_signature signature || is_none o.failure_signature)

unfoldable pub assess_baseline : List TrialOutcome → BaselineVerdict
unfolding compatible
assess_baseline [] = unstable 0
assess_baseline (first ∷ rest) =
    let outcomes = first ∷ rest in
    let runs = length outcomes in
    if all (λ o. o.passed) outcomes
    then stable_passing runs
    else if all (λ o. not o.passed) outcomes
    then (if compatible first.failure_signature outcomes
        then stable_failing runs first.failure_signature
        else unstable runs)
    else unstable runs
