-- ===== src/Application/Prove/Ending.antt =====
-- crates/ovid-application/src/prove.rs: the last stages of `prove`, the world and the replay.
use ovid.Prelude.{
  ◌+◌, ◌^◌, ◌≤◌, ◌<◌, ◌≡◌, refl, ap, ◌∙◌, Bool, true, false, not, ◌&&◌, Option, none, some, List,
  [], ◌∷◌, Text, length, arith, inl, inr, leb, Bool-cases, lit, false≢true,
}
use ovid.Domain.Trial.{TrialRecord, is_baseline, unchanged}
use ovid.Domain.Baseline.{BaselineVerdict, supports_experiments}
use ovid.Domain.Scope.{AnalysisScope}
use ovid.Domain.World.{
  Codec, WorldOutcome, ProposedWorld, ReplayEvidence, from_clean_replay, not_synthesized, proposed,
  replay_failed, verified, verify,
}
use ovid.Domain.World.Verification.{from_clean_replay_iff}
use ovid.Application.Workflow.{
  AnalysisState, created, source_resolved, inspected, environment_prepared, provisioned,
  baseline_validated, candidates_observed, experiments_completed, finalized,
}
use ovid.Application.Workflow
use ovid.Application.Ports.{Laboratory, Journal, SnapshotRef, PreparedEnvironment, TrialResult}
use ovid.Application.Prove.{ProvePolicy, ProveError}
use ovid.Application.Prove.Run.{Run, Action, pure, ◌>>=◌, choose, executed, advance}
use ovid.Application.Prove.Worlds.{
  world_stage, synthesize, replay_world, after_replay, conclude_replay, leave_proposed,
  conclusions_so_far,
}
use ovid.Application.Prove.Loop.{finish, journal_limitations, current, destroy}
use ovid.Application.Prove.Triples.{
  Tracks, Left, Spent, Triple, Keeps, bind-Triple, append-Keeps, append-Triple, advance-Triple,
}
use ovid.Application.Prove.Budget.{run_trial-Left, Ran}

-- What the kind of a world says of the baseline and of the replay.
abbrev pub Backed : Bool → WorldOutcome → Type 0
Backed stable (not_synthesized reason) = stable ≡ false
Backed stable (proposed world reason) = stable ≡ true
Backed stable (replay_failed world failure) =
    (stable ≡ true) × ((is_baseline failure.treatment && failure.outcome.passed) ≡ false)
Backed stable (verified v) =
    (stable ≡ true)
    × (v.replay.trial.treatment ≡ unchanged)
    × (v.replay.trial.outcome.passed ≡ true)

replay-none :
    (t : TrialRecord)
    → from_clean_replay t ≡ none
    → (is_baseline t.treatment && t.outcome.passed) ≡ false
unfolding from_clean_replay
replay-none t q = elim (Bool-cases (is_baseline t.treatment && t.outcome.passed)) [
  | inl h ↦ absurd (cc (rw h at q))
  | inr h ↦ h
]

module _ {σ τ : Type 0} (lab : Laboratory σ) (journal : Journal τ) (k : Codec)
    (policy : ProvePolicy) (small : policy.max_trials < 2 ^ 64) where
  abbrev pub Fails : ProveError → Run σ τ → Type 0
  Fails = Spent policy.max_trials

  abbrev pub At : AnalysisState → Run σ τ → Type 0
  At w = Tracks policy.max_trials w 0

  pub step :
      (w v : AnalysisState)
      → Workflow.allows w v ≡ true
      → Triple Fails (At w) (advance v) (λ _. At v)
  step w v a = advance-Triple policy.max_trials Fails w v 0 a

  -- The workflow may finish.
  abbrev pub Ready : Run σ τ → Type 0
  Ready s =
      (Workflow.allows s.workflow.state finalized ≡ true)
      × (length s.trials + 0 ≡ s.trials_executed)
      × (s.trials_executed ≤ policy.max_trials)

  abbrev Ends : AnalysisState → Action σ τ WorldOutcome → Type 0
  Ends w m = Triple Fails (At w) m (λ o s. Ready s × Backed true o)

  At-Ready :
      (w : AnalysisState) (s : Run σ τ) → Workflow.allows w finalized ≡ true → At w s → Ready s
  At-Ready w s a h = (ap (λ v. Workflow.allows v finalized) h.0 ∙ a, h.1, h.2)

  -- A last step of the workflow before the end.
  Ends-advance :
      (w v : AnalysisState) (o : WorldOutcome)
      → Workflow.allows w v ≡ true
      → Workflow.allows v finalized ≡ true
      → Backed true o
      → Ends w (advance v >>= λ _. pure o)
  Ends-advance w v o a b c =
      bind-Triple Fails (At w) (λ _. At v) (λ o s. Ready s × Backed true o) _ _ (step w v a)
        (λ _ s h. (At-Ready v s b h, c))

  conclude_replay-Ends :
      (snapshot : SnapshotRef) (scope : AnalysisScope) (world : ProposedWorld)
      (replay : TrialResult) (e : Option ReplayEvidence)
      → from_clean_replay replay.trial_record ≡ e
      → Ends Workflow.world_synthesized
          (conclude_replay lab journal k policy snapshot scope world replay e)
  unfolding conclude_replay Workflow.allows verify
  conclude_replay-Ends snapshot scope world replay (some e) q = Ends-advance _ _ _ refl refl (
      let r = (from_clean_replay_iff replay.trial_record e).0 q in
      (refl, ap (λ t. t.treatment) r.2 ∙ r.0, ap (λ t. t.outcome.passed) r.2 ∙ r.1))
  conclude_replay-Ends snapshot scope world replay none q =
      Ends-advance _ _ _ refl refl (refl, replay-none replay.trial_record q)

  after_replay-Ends :
      (snapshot : SnapshotRef) (scope : AnalysisScope) (world : ProposedWorld)
      (r : Option TrialResult)
      → Triple Fails
          (Ran lab journal policy snapshot scope.workload_argv small Workflow.world_synthesized r)
          (after_replay lab journal k policy snapshot scope world r)
          (λ o s. Ready s × Backed true o)
  unfolding after_replay
  after_replay-Ends snapshot scope world none s h = absurd (false≢true h.1)
  after_replay-Ends snapshot scope world (some replay) s h =
      bind-Triple Fails (At Workflow.world_synthesized) (λ _. At Workflow.world_synthesized)
        (λ o s. Ready s × Backed true o) _ _ (append-Keeps policy.max_trials journal _ _)
        (λ _.
          conclude_replay-Ends snapshot scope world replay (from_clean_replay replay.trial_record)
            refl)
        s h.0

  replay_world-Ends :
      (snapshot : SnapshotRef) (scope : AnalysisScope) (world : ProposedWorld)
      → Triple Fails
          (Left policy.max_trials Workflow.world_synthesized)
          (replay_world lab journal k policy snapshot scope world)
          (λ o s. Ready s × Backed true o)
  unfolding replay_world
  replay_world-Ends snapshot scope world =
      bind-Triple Fails (Left policy.max_trials Workflow.world_synthesized)
        (Ran lab journal policy snapshot scope.workload_argv small Workflow.world_synthesized)
        (λ o s. Ready s × Backed true o) _ _
        (run_trial-Left lab journal policy snapshot scope.workload_argv small
          Workflow.world_synthesized _ _)
        (after_replay-Ends snapshot scope world)

  leave_proposed-Ends :
      (snapshot : SnapshotRef) (scope : AnalysisScope) (world : ProposedWorld) (reason : Text)
      → Ends Workflow.world_synthesized
          (leave_proposed lab journal k policy snapshot scope world reason)
  unfolding leave_proposed Workflow.allows
  leave_proposed-Ends snapshot scope world reason = Ends-advance _ _ _ refl refl refl

  decide-Ends :
      (snapshot : SnapshotRef) (scope : AnalysisScope) (world : ProposedWorld) (b : Bool)
      → Ends Workflow.world_synthesized (
          executed >>= λ n.
          choose b
            (leave_proposed lab journal k policy snapshot scope world
              (lit "replay disabled by policy"))
            (choose
              (leb policy.max_trials n)
              (leave_proposed lab journal k policy snapshot scope world
                (lit "trial budget exhausted before replay"))
              (replay_world lab journal k policy snapshot scope world)))
  unfolding executed
  decide-Ends snapshot scope world true s h = leave_proposed-Ends snapshot scope world _ s h
  decide-Ends snapshot scope world false s h =
      elim (Bool-cases (leb policy.max_trials s.trials_executed)) [
        | inl t ↦ rw t (leave_proposed-Ends snapshot scope world _ s h)
        | inr f ↦
            let left : s.trials_executed < policy.max_trials = ground arith in
            rw f (replay_world-Ends snapshot scope world s (h, left))
      ]

  synthesize-Ends :
      (snapshot : SnapshotRef) (scope : AnalysisScope)
      → Ends experiments_completed (synthesize lab journal k policy snapshot scope)
  unfolding synthesize conclusions_so_far Workflow.allows
  synthesize-Ends snapshot scope s h =
      bind-Triple Fails (At experiments_completed) (λ _. At experiments_completed)
        (λ o s. Ready s × Backed true o) _ _ (append-Keeps policy.max_trials journal _ _)
        (λ _.
          bind-Triple Fails (At experiments_completed) (λ _. At Workflow.world_synthesized)
            (λ o s. Ready s × Backed true o) _ _ (step _ _ refl)
            (λ _. decide-Ends snapshot scope _ (not policy.attempt_replay)))
        s h

  pub world_stage-Ends :
      (snapshot : SnapshotRef) (scope : AnalysisScope) (baseline : BaselineVerdict)
      → Triple Fails
          (At experiments_completed)
          (world_stage lab journal k policy snapshot scope baseline)
          (λ o s. Ready s × Backed (supports_experiments baseline) o)
  unfolding world_stage Workflow.allows
  world_stage-Ends snapshot scope baseline s h = elim (Bool-cases (supports_experiments baseline)) [
    | inl t ↦ rw t (synthesize-Ends snapshot scope s h)
    | inr f ↦ rw f (At-Ready experiments_completed s refl h, refl)
  ]

  journal_limitations-Ready :
      (ds : List Text) → Keeps Fails Ready (journal_limitations lab journal k policy ds)
  unfolding journal_limitations
  journal_limitations-Ready [] = λ s p. p
  journal_limitations-Ready (d ∷ ds) =
      bind-Triple Fails Ready (λ _. Ready) (λ _. Ready) _ _
        (append-Triple Fails journal Ready _ (λ s j h. h) (λ e s h. (omega (arith, h.1), h.2)))
        (λ _. journal_limitations-Ready ds)

  pub finish-Triple :
      (environment : PreparedEnvironment)
      → Triple Fails Ready (finish lab journal k policy environment) (λ _. At finalized)
  unfolding finish current destroy
  finish-Triple environment s h =
      bind-Triple Fails Ready (λ _. Ready) (λ _. At finalized) _ _
        (journal_limitations-Ready s.limitations)
        (λ _ s' r.
          bind-Triple Fails (At s'.workflow.state) (λ _. At finalized) (λ _. At finalized) _ _
            (step s'.workflow.state finalized r.0) (λ _ s'' p. p) s' (refl, r.1, r.2))
        s h
