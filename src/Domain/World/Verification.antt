-- ===== src/Domain/World/Verification.antt =====
-- crates/ovid-domain/src/world.rs: canonical proposals, and what a verified world rests on.
use mathlib.Core.List.{Perm}
use ovid.Prelude.{◌≡◌, refl, ap, ◌↔◌, true, ◌&&◌, some, arith, eq_discrete, &&-true}
use ovid.Prelude.Order.{sort, sort-perm, sort-eq_of_perm, sort-IsSorted, IsSorted}
use ovid.Domain.Dependency.{key_eq, key_order}
use ovid.Domain.Scope.{AnalysisScope}
use ovid.Domain.Trial.{Treatment, TrialRecord, unchanged, is_baseline}
use ovid.Domain.World.{WorldCandidate, Codec, ReplayEvidence, from_clean_replay, propose, proposal}

-- A proposed world lists each kind of dependency in ascending order, the same keys as often as the
-- candidate had them, and keeps the workload's argv and environment and the scope.
propose-canonical :
    (k : Codec) (w : WorldCandidate) (s : AnalysisScope)
    → let p = propose k w s in
      (IsSorted p.candidate.required × Perm p.candidate.required w.required)
      × (IsSorted p.candidate.optional × Perm p.candidate.optional w.optional)
      × (IsSorted p.candidate.unresolved × Perm p.candidate.unresolved w.unresolved)
      × (p.candidate.workload_argv ≡ w.workload_argv)
      × (p.candidate.environment ≡ w.environment)
      × (p.scope ≡ s)
unfolding propose
propose-canonical k w s = (
  (sort-IsSorted w.required, sort-perm w.required),
  (sort-IsSorted w.optional, sort-perm w.optional),
  (sort-IsSorted w.unresolved, sort-perm w.unresolved),
  refl,
  refl,
  refl,
)

-- The proposal and its digest forget the order in which the dependencies were classified: two
-- candidates whose lists are permutations of one another, with one argv and one environment, give
-- the same proposed world.
pub propose-eq_of_perm :
    (k : Codec) (v w : WorldCandidate) (s : AnalysisScope)
    → Perm v.required w.required
    → Perm v.optional w.optional
    → Perm v.unresolved w.unresolved
    → v.workload_argv ≡ w.workload_argv
    → v.environment ≡ w.environment
    → propose k v s ≡ propose k w s
unfolding propose
propose-eq_of_perm k v w s r o u a e =
    let same = eq_discrete key_eq in
    let r' : sort v.required ≡ sort w.required = sort-eq_of_perm same r in
    let o' : sort v.optional ≡ sort w.optional = sort-eq_of_perm same o in
    let u' : sort v.unresolved ≡ sort w.unresolved = sort-eq_of_perm same u in
    ap (λ c. proposal k c s)
      (λ i. record {
        required = r' i;
        optional = o' i;
        unresolved = u' i;
        workload_argv = a i;
        environment = e i;
      })

is_baseline_iff : (t : Treatment) → (is_baseline t ≡ true) ↔ (t ≡ unchanged)
unfolding is_baseline
is_baseline_iff t = ground arith

-- A trial is accepted as replay evidence exactly when it ran untreated and passed, and the evidence
-- is that trial.
pub from_clean_replay_iff :
    (t : TrialRecord) (e : ReplayEvidence)
    → (from_clean_replay t ≡ some e)
      ↔ ((t.treatment ≡ unchanged) × (t.outcome.passed ≡ true) × (e.trial ≡ t))
unfolding from_clean_replay
from_clean_replay_iff t e = (
  λ h.
      let b : (is_baseline t.treatment && t.outcome.passed) ≡ true = ground arith in
      ((is_baseline_iff t.treatment).0 (&&-true _ _ b).0, (&&-true _ _ b).1, ground arith),
  λ h. ground (arith, (is_baseline_iff t.treatment).1 h.0, h.1, h.2),
)
