-- ===== src/Application/Prove/Experiments.antt =====
-- crates/ovid-application/src/prove.rs: the experiments keep the budget and the workflow's state.
use ovid.Prelude.{◌^◌, ◌<◌, List, [], ◌∷◌, Text}
use ovid.Domain.Baseline.{BaselineVerdict}
use ovid.Application.Workflow.{AnalysisState}
use ovid.Application.Ports.{
  Laboratory, Journal, SnapshotRef, TrialResult, NetworkCandidate, ExecutableCandidate,
}
use ovid.Application.Prove.{ProvePolicy}
use ovid.Application.Prove.Run.{Action, pure, ◌>>=◌}
use ovid.Application.Prove.Screen.{
  isolate_one, isolate_each, leave_dropped, isolate, judge_variants, intervene, screen_networks,
  reuse_counterfactuals,
}
use ovid.Application.Prove.Sweep.{
  hide_one, hide_each, leave_untested, leave_unhidden, hide_all, sweep_executables,
}
use ovid.Application.Prove.Triples.{
  Tracks, Spent, Keeps, bind-Keeps, when-Keeps, choose-Keeps, limit-Keeps, executed-Keeps,
  capabilities-Keeps, journal_conclusions-Keeps,
}
use ovid.Application.Prove.Budget.{run_trials-Keeps, hide_trials-Keeps}

module _ {σ τ : Type 0} (lab : Laboratory σ) (journal : Journal τ) (policy : ProvePolicy)
    (snapshot : SnapshotRef) (argv : List Text) (baseline : BaselineVerdict)
    (small : policy.max_trials < 2 ^ 64) (w : AnalysisState) where
  abbrev pub Stays : {A : Type 0} → Action σ τ A → Type 0
  Stays m = Keeps (Spent policy.max_trials) (Tracks policy.max_trials w 0) m

  abbrev then_Stays :
      {A B : Type 0} (m : Action σ τ A) (f : A → Action σ τ B)
      → Stays m
      → ((a : A) → Stays (f a))
      → Stays (m >>= f)
  then_Stays = bind-Keeps (Spent policy.max_trials) (Tracks policy.max_trials w 0)

  isolate_one-Stays :
      (c : NetworkCandidate) → Stays (isolate_one lab journal policy snapshot argv baseline c)
  unfolding isolate_one
  isolate_one-Stays c =
      then_Stays _ _
        (run_trials-Keeps lab journal policy snapshot argv small w _ _ (pure tt) _ _ (λ s p. p))
        (λ rs. journal_conclusions-Keeps policy.max_trials journal w _)

  isolate_each-Stays :
      (cs : List NetworkCandidate)
      → Stays (isolate_each lab journal policy snapshot argv baseline cs)
  unfolding isolate_each
  isolate_each-Stays [] = λ s p. p
  isolate_each-Stays (c ∷ cs) = then_Stays _ _ (executed-Keeps policy.max_trials w) (λ n.
      choose-Keeps (Spent policy.max_trials) (Tracks policy.max_trials w 0) _ _ _
        (then_Stays _ _ (isolate_each-Stays cs) (λ ds s p. p))
        (then_Stays _ _ (isolate_one-Stays c) (λ _. isolate_each-Stays cs)))

  leave_dropped-Stays :
      (ds : List Text) → Stays (leave_dropped lab journal policy snapshot argv baseline ds)
  unfolding leave_dropped
  leave_dropped-Stays [] = λ s p. p
  leave_dropped-Stays (d ∷ ds) =
      then_Stays _ _ (journal_conclusions-Keeps policy.max_trials journal w _)
        (λ _. leave_dropped-Stays ds)

  isolate-Stays :
      (cs : List NetworkCandidate) → Stays (isolate lab journal policy snapshot argv baseline cs)
  unfolding isolate
  isolate-Stays cs = then_Stays _ _ (isolate_each-Stays cs) (λ ds.
      when-Keeps (Spent policy.max_trials) (Tracks policy.max_trials w 0) _ _
        (then_Stays _ _ (limit-Keeps policy.max_trials w _) (λ _. leave_dropped-Stays ds)))

  judge_variants-Stays :
      (screened : List NetworkCandidate) (results : List TrialResult)
      → Stays (judge_variants lab journal policy snapshot argv baseline screened results)
  unfolding judge_variants
  judge_variants-Stays screened results =
      then_Stays _ _ (capabilities-Keeps policy.max_trials lab w) (λ caps.
        choose-Keeps (Spent policy.max_trials) (Tracks policy.max_trials w 0) _ _ _
          (isolate-Stays _) (journal_conclusions-Keeps policy.max_trials journal w _))

  intervene-Stays :
      (screened : List NetworkCandidate)
      → Stays (intervene lab journal policy snapshot argv baseline screened)
  unfolding intervene
  intervene-Stays screened =
      then_Stays _ _
        (run_trials-Keeps lab journal policy snapshot argv small w _ _ _ _ _
          (limit-Keeps policy.max_trials w _))
        (judge_variants-Stays screened)

  pub screen_networks-Stays :
      (screened : List NetworkCandidate)
      → Stays (screen_networks lab journal policy snapshot argv baseline screened)
  unfolding screen_networks
  screen_networks-Stays screened =
      when-Keeps (Spent policy.max_trials) (Tracks policy.max_trials w 0) _ _ (
        then_Stays _ _ (capabilities-Keeps policy.max_trials lab w) (λ caps.
          choose-Keeps (Spent policy.max_trials) (Tracks policy.max_trials w 0) _ _ _
            (then_Stays _ _ (limit-Keeps policy.max_trials w _)
              (λ _. journal_conclusions-Keeps policy.max_trials journal w _))
            (intervene-Stays screened)))

  hide_one-Stays : (name : Text) → Stays (hide_one lab journal policy snapshot argv baseline name)
  unfolding hide_one
  hide_one-Stays name =
      then_Stays _ _ (hide_trials-Keeps lab journal policy snapshot argv small w _ _ _ _)
        (λ t. journal_conclusions-Keeps policy.max_trials journal w _)

  hide_each-Stays :
      (es : List ExecutableCandidate)
      → Stays (hide_each lab journal policy snapshot argv baseline es)
  unfolding hide_each
  hide_each-Stays [] = λ s p. p
  hide_each-Stays (e ∷ es) = then_Stays _ _ (executed-Keeps policy.max_trials w) (λ n.
      choose-Keeps (Spent policy.max_trials) (Tracks policy.max_trials w 0) _ _ _
        (then_Stays _ _ (hide_each-Stays es) (λ ds s p. p))
        (then_Stays _ _ (hide_one-Stays e.name) (λ _. hide_each-Stays es)))

  leave_untested-Stays :
      (ds : List Text) → Stays (leave_untested lab journal policy snapshot argv baseline ds)
  unfolding leave_untested
  leave_untested-Stays [] = λ s p. p
  leave_untested-Stays (d ∷ ds) =
      then_Stays _ _ (journal_conclusions-Keeps policy.max_trials journal w _)
        (λ _. leave_untested-Stays ds)

  leave_unhidden-Stays :
      (es : List ExecutableCandidate)
      → Stays (leave_unhidden lab journal policy snapshot argv baseline es)
  unfolding leave_unhidden
  leave_unhidden-Stays [] = λ s p. p
  leave_unhidden-Stays (e ∷ es) =
      then_Stays _ _ (journal_conclusions-Keeps policy.max_trials journal w _)
        (λ _. leave_unhidden-Stays es)

  hide_all-Stays :
      (targets : List ExecutableCandidate)
      → Stays (hide_all lab journal policy snapshot argv baseline targets)
  unfolding hide_all
  hide_all-Stays targets = then_Stays _ _ (hide_each-Stays targets) (λ ds.
      when-Keeps (Spent policy.max_trials) (Tracks policy.max_trials w 0) _ _
        (then_Stays _ _ (limit-Keeps policy.max_trials w _) (λ _. leave_untested-Stays ds)))

  pub sweep_executables-Stays :
      (targets : List ExecutableCandidate)
      → Stays (sweep_executables lab journal policy snapshot argv baseline targets)
  unfolding sweep_executables
  sweep_executables-Stays targets =
      when-Keeps (Spent policy.max_trials) (Tracks policy.max_trials w 0) _ _ (
        then_Stays _ _ (capabilities-Keeps policy.max_trials lab w) (λ caps.
          choose-Keeps (Spent policy.max_trials) (Tracks policy.max_trials w 0) _ _ _
            (then_Stays _ _ (limit-Keeps policy.max_trials w _) (λ _. leave_unhidden-Stays targets))
            (hide_all-Stays targets)))

  pub reuse_counterfactuals-Stays :
      (labels : List Text) (networks : List NetworkCandidate)
      (executables : List ExecutableCandidate)
      → Stays (reuse_counterfactuals journal baseline labels networks executables)
  unfolding reuse_counterfactuals
  reuse_counterfactuals-Stays labels networks executables =
      then_Stays _ _
        (when-Keeps (Spent policy.max_trials) (Tracks policy.max_trials w 0) _ _
          (journal_conclusions-Keeps policy.max_trials journal w _))
        (λ _.
          when-Keeps (Spent policy.max_trials) (Tracks policy.max_trials w 0) _ _
            (journal_conclusions-Keeps policy.max_trials journal w _))
