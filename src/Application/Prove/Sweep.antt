-- ===== src/Application/Prove/Sweep.antt =====
-- crates/ovid-application/src/prove.rs: the sweep that hides one executable at a time.
use ovid.Prelude.{
  ◌+◌, true, false, not, Option, none, some, List, [], ◌∷◌, ◌++◌, Text, lit, show, join, length,
  keep_if, is_empty, ltb,
}
use ovid.Domain.Trial.{hide_executable, TrialRecord}
use ovid.Domain.Baseline.{BaselineVerdict}
use ovid.Domain.Classify.{CausalConclusion, classify_intervention, classify_unenforceable}
use ovid.Application.Ports.{Laboratory, Journal, SnapshotRef, ExecutableCandidate}
use ovid.Application.Prove.{ProvePolicy}
use ovid.Application.Prove.Run.{
  Action, pure, ◌>>=◌, when, choose, limit, executed, capabilities, journal_conclusions, usize,
}
use ovid.Application.Prove.Trials.{hide_trials}
use ovid.Application.Prove.Schedule.{sort_by, hide_le}
use ovid.Application.Prove.Screen.{executable_evidence}

unfoldable pub hide_targets : List ExecutableCandidate → List ExecutableCandidate
hide_targets executables = sort_by hide_le (keep_if (λ e. e.found) executables)

abbrev hide_reason : Text
hide_reason = lit "this laboratory cannot hide executables"

-- What the trials of one executable say of it.
unfoldable pub hide_conclusions :
    BaselineVerdict → Text → List TrialRecord × Option Text → List CausalConclusion
hide_conclusions baseline name (records, some reason) =
    classify_unenforceable (executable_evidence name true ∷ []) (hide_executable name) reason
hide_conclusions baseline name (records, none) =
    classify_intervention baseline records (executable_evidence name true ∷ [])

module _ {σ τ : Type 0} (lab : Laboratory σ) (journal : Journal τ) (policy : ProvePolicy)
    (snapshot : SnapshotRef) (argv : List Text) (baseline : BaselineVerdict) where
  unfoldable pub hide_one : Text → Action σ τ (Unit {0})
  hide_one name = do
    tested ←
        hide_trials lab journal policy snapshot argv
          (λ index. lit "hide-" ++ (name ++ (lit "-" ++ show index))) (hide_executable name)
          (usize (1 + policy.confirmation_runs)) 1
    journal_conclusions journal (hide_conclusions baseline name tested)

  -- The loop over the executables; its result is `dropped`.
  unfoldable pub hide_each : List ExecutableCandidate → Action σ τ (List Text)
  hide_each [] = pure []
  hide_each (e ∷ es) = do
    n ← executed
    choose (ltb policy.max_trials (usize (n + usize (1 + policy.confirmation_runs) + 1)))
        (do dropped ← hide_each es; pure (e.name ∷ dropped)) (do _ ← hide_one e.name; hide_each es)

  unfoldable pub leave_untested : List Text → Action σ τ (Unit {0})
  leave_untested [] = pure tt
  leave_untested (name ∷ dropped) = do
    _ ←
        journal_conclusions journal
          (classify_intervention baseline [] (executable_evidence name false ∷ []))
    leave_untested dropped

  unfoldable pub leave_unhidden : List ExecutableCandidate → Action σ τ (Unit {0})
  leave_unhidden [] = pure tt
  leave_unhidden (e ∷ es) = do
    _ ← journal_conclusions journal (
        classify_unenforceable (executable_evidence e.name false ∷ []) (hide_executable e.name)
          hide_reason)
    leave_unhidden es

  unfoldable pub hide_all : List ExecutableCandidate → Action σ τ (Unit {0})
  hide_all targets = do
    dropped ← hide_each targets
    when (not (is_empty dropped)) (do
      _ ← limit (
          lit "trial budget reached before hide-executable trials for: "
          ++ (join (lit ", ") dropped ++ lit " (raise --max-trials to test them)"))
      leave_untested dropped)

  -- Step 3.
  unfoldable pub sweep_executables : List ExecutableCandidate → Action σ τ (Unit {0})
  sweep_executables targets = when (not (is_empty targets)) (do
    caps ← capabilities lab
    choose (not caps.executable_hiding)
        (do
          _ ← limit (
              hide_reason
              ++ (lit "; "
                  ++ (show (length targets) ++ lit " executable candidate(s) stay unresolved")))
          leave_unhidden targets)
        (hide_all targets))
