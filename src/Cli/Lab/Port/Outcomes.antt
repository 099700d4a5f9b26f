-- ===== src/Cli/Lab/Port/Outcomes.antt =====
-- crates/ovid-cli/src/lab.rs: what a trial reports of the run that the host made.
use ovid.Prelude.{ℕ, ◌%◌, ◌^◌, ◌≡◌, refl, subst, Option, none, some, List, Floats}
use ovid.Domain.Trial.{
  Treatment, unchanged, deny_all_egress, hide_executable, block_dependency, EnforcementReport,
  enforced_by,
}
use ovid.Application.Ports.{
  LabError, Answer, answered, refused, SnapshotRef, TrialSpec, TrialResult, TrialObservations,
}
use ovid.Gateway.Proxy.{GatewayPolicy, GatewayIntent, Upstream}
use ovid.Cli.Lab.{Host, HostLaboratory, BackendKind, process, microsandbox, RunResult, record_of}
use ovid.Cli.Lab.Plans.{GuestPlan, GatewayPlan, plan_guest}
use ovid.Cli.Lab.Port.{Effects, Machine, RunSpec, pure, continue}
use ovid.Cli.Lab.Port.Ensured.{
  Answered, Ensures, bind-Ensures, then-Ensures, given-Ensures, pure-Ensures, on_world-Ensures,
}
use ovid.Cli.Lab.Port.Enforced.{plan_trial-AreKept}
use ovid.Cli.Lab.Port.Planned.{Planned}
use ovid.Cli.Lab.Port.Told.{Tells, outcome-Tells}
use ovid.Cli.Lab.Port.Running.{
  run_trial, run_trial_guest, run_trial_process, run_on, run_behind, run_wrapped, run_through,
  execute, plan_trial, trial_result,
}

module _ {σ : Type 0} (fx : Effects σ) where
  -- A run that the host made for a trial, with the timeout that was asked for.
  abbrev pub Made : TrialSpec → RunResult → Type 0
  Made spec r =
      (s : RunSpec) × (w : σ) × (s.timeout_seconds ≡ spec.timeout_seconds)
      × ((fx.run s w).0 ≡ answered r)

  -- The record of a trial names what was asked for, and its outcome, exit code and duration are
  -- those of a run that the host made.
  pub record Reports (spec : TrialSpec) (r : TrialResult) : Type 0 where
    pub label : r.trial_record.label ≡ spec.label
    pub treatment : r.trial_record.treatment ≡ spec.treatment
    pub requested : r.trial_record.enforcement.requested ≡ spec.treatment
    pub made :
        (run : RunResult) × Made spec run
        × Tells run r.trial_record.outcome
        × (r.exit_code ≡ run.exit_code)
        × (r.duration_ms ≡ run.duration_ms % 2 ^ 64)

  result-Reports :
      (spec : TrialSpec) (e : EnforcementReport) (r : RunResult) (o : TrialObservations)
      → e.requested ≡ spec.treatment
      → Made spec r
      → Reports spec (trial_result spec e r o)
  unfolding trial_result record_of
  result-Reports spec e r o q m = record {
    label = refl;
    treatment = refl;
    requested = q;
    made = (r, m, outcome-Tells r, refl, refl);
  }

  abbrev Ran : TrialSpec → RunResult × List GatewayIntent → Type 0
  Ran spec r = Made spec r.0

  -- With the run of the host in hand.
  ran :
      (spec : TrialSpec) (s : RunSpec) (w : σ) (is : RunResult → List GatewayIntent)
      (a : Answer LabError RunResult) (m : Machine σ)
      → s.timeout_seconds ≡ spec.timeout_seconds
      → (fx.run s w).0 ≡ a
      → Answered (Ran spec) (continue (λ r. pure (r, is r)) (a, m)).0
  unfolding pure
  ran spec s w is (answered r) m t q = (s, w, t, q)
  ran spec s w is (refused e) m t q = tt

  run_through-Ensures :
      (spec : TrialSpec) (h : Host) (n : ℕ) (s : RunSpec) (l : HostLaboratory)
      (o : Option (GatewayPolicy × Option Upstream))
      → s.timeout_seconds ≡ spec.timeout_seconds
      → Ensures (Ran spec) (run_through fx h n s l o)
  unfolding run_through run_behind run_wrapped
  run_through-Ensures spec h n s l (some (policy, upstream)) t =
      then-Ensures (Ran spec) _ _ (λ port. record { holds = λ m. ran spec _ m.world _ _ _ t refl })
  run_through-Ensures spec h n s l none t =
      then-Ensures (Ran spec) _ _ (λ bin. record { holds = λ m. ran spec _ m.world _ _ _ t refl })

  execute-Ensures :
      (spec : TrialSpec) (h : Host) (n : ℕ) (s : RunSpec) (g : GatewayPlan)
      → s.timeout_seconds ≡ spec.timeout_seconds
      → Ensures (Ran spec) (execute fx h n s g)
  unfolding execute
  execute-Ensures spec h n s g t =
      then-Ensures (Ran spec) _ _ (λ l. run_through-Ensures spec h n s l _ t)

  guest-Answered :
      (l : HostLaboratory) (t : Treatment)
      → Answered (λ (p : GuestPlan). p.enforcement.requested ≡ t) (plan_guest l t)
  unfolding plan_guest enforced_by
  guest-Answered l unchanged = refl
  guest-Answered l deny_all_egress = refl
  guest-Answered l (hide_executable name) = tt
  guest-Answered l (block_dependency dependency) = tt

  plan-Ensures :
      (h : Host) (t : Treatment)
      → Ensures (λ (p : Planned). p.0.enforcement.requested ≡ t) (plan_trial fx h t)
  plan-Ensures h t = record { holds = λ m. by_answer m (plan_trial fx h t m).0 refl }
    where
      by_answer :
          (m : Machine σ) (a : Answer LabError Planned)
          → (plan_trial fx h t m).0 ≡ a
          → Answered (λ (p : Planned). p.0.enforcement.requested ≡ t) a
      by_answer m (answered p) q = (plan_trial-AreKept fx h t m q).0.requested
      by_answer m (refused e) q = tt

  process-Reports :
      (fl : Floats) (h : Host) (at : SnapshotRef) (spec : TrialSpec)
      → Ensures (Reports spec) (run_trial_process fx fl h at spec)
  unfolding run_trial_process
  process-Reports fl h at spec =
      bind-Ensures (λ (p : Planned). p.0.enforcement.requested ≡ spec.treatment) (Reports spec) _ _
        (plan-Ensures h spec.treatment)
        (λ p q. then-Ensures (Reports spec) _ _ (λ trial.
          bind-Ensures (Ran spec) (Reports spec) _ _ (execute-Ensures spec h trial.0 _ _ refl)
            (λ run made. then-Ensures (Reports spec) _ _ (λ o. then-Ensures (Reports spec) _ _ (λ _.
              then-Ensures (Reports spec) _ _ (λ _.
                pure-Ensures (Reports spec) _
                  (result-Reports spec p.0.enforcement run.0 _ q made)))))))

  guest-Reports :
      (fl : Floats) (h : Host) (at : SnapshotRef) (spec : TrialSpec)
      → Ensures (Reports spec) (run_trial_guest fx fl h at spec)
  unfolding run_trial_guest
  guest-Reports fl h at spec = then-Ensures (Reports spec) _ _ (λ l.
      bind-Ensures (λ (p : GuestPlan). p.enforcement.requested ≡ spec.treatment) (Reports spec) _ _
        (given-Ensures _ _ (guest-Answered l spec.treatment))
        (λ p q. then-Ensures (Reports spec) _ _ (λ trial.
          bind-Ensures _ (Reports spec) _ _ (on_world-Ensures _) (λ r made.
            then-Ensures (Reports spec) _ _ (λ o. then-Ensures (Reports spec) _ _ (λ _.
              pure-Ensures (Reports spec) _
                (result-Reports spec p.enforcement r o q (_, made.0, refl, made.1))))))))

  kind-Reports :
      (fl : Floats) (h : Host) (at : SnapshotRef) (spec : TrialSpec) (k : BackendKind)
      → Ensures (Reports spec) (run_on fx k fl h at spec)
  unfolding run_on
  kind-Reports fl h at spec process = process-Reports fl h at spec
  kind-Reports fl h at spec microsandbox = guest-Reports fl h at spec

  -- On either backend a trial that is answered has the label and the treatment that were asked for
  -- and an enforcement report of that treatment, and tells of a run that the host made with the
  -- timeout asked for: it passed exactly if that run ended in time with exit code 0, else its
  -- signature is the timeout, the exit code or the signal.
  pub run_trial-Reports :
      (fl : Floats) (h : Host) (at : SnapshotRef) (spec : TrialSpec) (m : Machine σ)
      {r : TrialResult}
      → (run_trial fx fl h at spec m).0 ≡ answered r
      → Reports spec r
  unfolding run_trial
  run_trial-Reports fl h at spec m q =
      subst (Answered (Reports spec)) q ((kind-Reports fl h at spec m.lab.kind).holds m)
