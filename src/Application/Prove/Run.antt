-- ===== src/Application/Prove/Run.antt =====
-- crates/ovid-application/src/prove.rs: the variables of `prove` as a state, its early returns and
-- panics as outcomes, and the calls of the ports.
use ovid.Prelude.{
  ℕ, ◌+◌, ◌%◌, ◌^◌, Bool, true, false, Option, none, some, List, [], ◌∷◌, ◌++◌, Text, Bool,
}
use ovid.Domain.Trial.{TrialRecord}
use ovid.Domain.Classify.{CausalConclusion}
use ovid.Application.Workflow.{Workflow, AnalysisState, advance_checked}
use ovid.Application.Ports.{
  Laboratory, Journal, Answer, answered, refused, LabError, JournalError, JournalEvent,
  dependency_classified, LabCapabilities,
}
use ovid.Application.Prove.{ClassifiedDependency, ProveError, lab_error, journal_error}

-- The mutable variables of `prove`, with the states behind the two ports.
pub record Run (σ τ : Type 0) : Type 0 where
  pub lab : σ
  pub journal : τ
  pub workflow : Workflow
  pub trials : List TrialRecord
  pub trials_executed : ℕ
  pub limitations : List Text
  pub conclusions : List ClassifiedDependency

pub data Outcome (σ τ A : Type 0) : Type 0 where
  returned : A → Run σ τ → Outcome σ τ A
  failed : ProveError → Run σ τ → Outcome σ τ A
  panicked : Outcome σ τ A

abbrev pub Action : Type 0 → Type 0 → Type 0 → Type 0
Action σ τ A = Run σ τ → Outcome σ τ A

-- `usize`
abbrev pub usize : ℕ → ℕ
usize n = n % 2 ^ 64

module _ {σ τ : Type 0} where
  abbrev pub pure : {A : Type 0} → A → Action σ τ A
  pure a s = returned a s

  -- What follows an outcome: `?`.
  abbrev pub and_then : {A B : Type 0} → Outcome σ τ A → (A → Action σ τ B) → Outcome σ τ B
  and_then (returned a s) f = f a s
  and_then (failed e s) f = failed e s
  and_then panicked f = panicked

  infixl 5 ◌>>=◌
  abbrev pub ◌>>=◌ : {A B : Type 0} → Action σ τ A → (A → Action σ τ B) → Action σ τ B
  ◌>>=◌ m f s = and_then (m s) f

  unfoldable pub when : Bool → Action σ τ (Unit {0}) → Action σ τ (Unit {0})
  when true m = m
  when false m = pure tt

  abbrev pub choose : {A : Type 0} → Bool → Action σ τ A → Action σ τ A → Action σ τ A
  choose true m k = m
  choose false m k = k

  abbrev pub lab_answer : {A : Type 0} → Run σ τ → Answer LabError A × σ → Outcome σ τ A
  lab_answer s (answered a, l) = returned a (record s { lab = l })
  lab_answer s (refused e, l) = failed (lab_error e) (record s { lab = l })

  unfoldable pub call_lab : {A : Type 0} → (σ → Answer LabError A × σ) → Action σ τ A
  call_lab f s = lab_answer s (f s.lab)

  abbrev pub moved : Run σ τ → Option Workflow → Outcome σ τ (Unit {0})
  moved s (some w) = returned tt (record s { workflow = w })
  moved s none = panicked

  -- `workflow.advance(next)`, where the assertion of a debug build is a panic.
  unfoldable pub advance : AnalysisState → Action σ τ (Unit {0})
  advance next s = moved s (advance_checked s.workflow next)

  unfoldable pub limit : Text → Action σ τ (Unit {0})
  limit detail s = returned tt (record s { limitations = s.limitations ++ (detail ∷ []) })

  unfoldable pub push_conclusion : CausalConclusion → Text → Action σ τ (Unit {0})
  push_conclusion c evidence s = returned tt (record s {
    conclusions = s.conclusions ++ (record { conclusion = c; evidence = evidence } ∷ []);
  })

  unfoldable pub push_trial : TrialRecord → Action σ τ (Unit {0})
  push_trial t s = returned tt (record s { trials = s.trials ++ (t ∷ []) })

  unfoldable pub count_trial : Action σ τ (Unit {0})
  count_trial s = returned tt (record s { trials_executed = usize (s.trials_executed + 1) })

  unfoldable pub executed : Action σ τ ℕ
  executed s = returned s.trials_executed s

  unfoldable pub capabilities : Laboratory σ → Action σ τ LabCapabilities
  capabilities lab s = returned (lab.capabilities s.lab) s

  abbrev pub journal_answer : Run σ τ → Answer JournalError Text × τ → Outcome σ τ Text
  journal_answer s (answered id, j) = returned id (record s { journal = j })
  journal_answer s (refused e, j) = failed (journal_error e) (record s { journal = j })

module _ {σ τ : Type 0} (journal : Journal τ) where
  unfoldable pub append : JournalEvent → Action σ τ Text
  append event s = journal_answer s (journal.append event s.journal)

  unfoldable pub journal_conclusions : List CausalConclusion → Action σ τ (Unit {0})
  journal_conclusions [] = pure tt
  journal_conclusions (c ∷ raw) = do
    evidence ← append (dependency_classified c)
    _ ← push_conclusion c evidence
    journal_conclusions raw
