-- ===== src/Domain/Classify/Intervention.antt =====
-- The labels of `classify_intervention` (crates/ovid-domain/src/classify.rs), candidate by candidate.
use Prim.Native.String.{String}
use ovid.Prelude.{
  ◌≡◌, refl, sym, ap, ◌∙◌, ◌≢◌, ◌↔◌, inl, inr, true, false, not, ◌&&◌, ◌||◌, ◌≤◌, Option, none,
  some, List, [], ◌∷◌, map, ◌++◌, Text, lit, arith, find, In, here, &&-true, Bool-cases, all-true,
  true-all, find-none, find-some, option_text_eq, false≢true, false≢true,
}
use ovid.Domain.Dependency.{key_eq}
use ovid.Domain.Trial.{TrialRecord, CandidateEvidence, EnforcementStatus, enforced, is_enforced}
use ovid.Domain.Baseline
use ovid.Domain.Baseline.{BaselineVerdict, supports_experiments}
use ovid.Domain.Classify.{
  required, optional, unresolved, CausalConclusion, classify_intervention, classify_trials,
  classify_enforced_trials, leave, leave_unresolved, passed_verdict, failed_verdict, changed_set,
  all_passed, all_failed, signatures_compatible,
}
use ovid.Domain.Classify.Changes.{
  Failed, compatible-Agreed, Agreed-compatible, single_change, change_single,
}
use ovid.Domain.Classify.Justified.{Controlled, ProvenRequired, ProvenOptional}

-- What one candidate's conclusion says.
pub record Meaning (b : BaselineVerdict) (ts : List TrialRecord) (cs : List CandidateEvidence)
    (f : CandidateEvidence → CausalConclusion) : Type 0 where
  pub keyed : (c : CandidateEvidence) → (f c).dependency ≡ c.key
  pub required_iff :
      (c : CandidateEvidence) → ((f c).necessity ≡ required) ↔ ProvenRequired b ts cs c
  pub optional_iff : (c : CandidateEvidence) → ((f c).necessity ≡ optional) ↔ ProvenOptional b ts c
  pub backed :
      (c : CandidateEvidence)
      → (f c).necessity ≢ unresolved
      → ((f c).trials ≡ map (λ t. t.label) ts) × (75 ≤ (f c).confidence)
  pub bare :
      (c : CandidateEvidence)
      → (f c).necessity ≡ unresolved
      → ((f c).trials ≡ []) × ((f c).confidence ≡ 0)

-- Where nothing can be concluded, everything is left unresolved.
leave-Meaning :
    (b : BaselineVerdict) (ts : List TrialRecord) (cs : List CandidateEvidence) (reason : Text)
    → ((c : CandidateEvidence) → ¬ ProvenRequired b ts cs c)
    → ((c : CandidateEvidence) → ¬ ProvenOptional b ts c)
    → Meaning b ts cs (leave reason)
unfolding leave_unresolved
leave-Meaning b ts cs reason nr no' = record {
  keyed = λ c. refl;
  required_iff = λ c. (λ h. cc, λ h. absurd (nr c h));
  optional_iff = λ c. (λ h. cc, λ h. absurd (no' c h));
  backed = λ c h. absurd (h refl);
  bare = λ c h. (refl, refl);
}

enforced-is : (s : EnforcementStatus) → is_enforced s ≡ true → s ≡ enforced
unfolding is_enforced
enforced-is s h = ground arith

abbrev Passed : List TrialRecord → Type 0
Passed ts = (t : TrialRecord) → In t ts → t.outcome.passed ≡ true

-- Trials that ran cannot have all passed and all failed.
not_both : (ts : List TrialRecord) → ts ≢ [] → all_passed ts ≡ true → ¬ Failed ts
not_both [] n p f = n refl
not_both (t ∷ ts) n p f =
    false≢true (sym (f t (here refl)) ∙ all-true (λ u. u.outcome.passed) (t ∷ ts) p (here refl))

Failed-all : (ts : List TrialRecord) → Failed ts → all_failed ts ≡ true
Failed-all ts f = true-all _ ts (λ t m. ap not (f t m))

all-Failed : (ts : List TrialRecord) → all_failed ts ≡ true → Failed ts
all-Failed ts h t m = let k = all-true _ ts h m in ground arith

module _ (b : BaselineVerdict) (ts : List TrialRecord) (cs : List CandidateEvidence)
    (ctl : Controlled b ts) where
  disagreed-Meaning :
      (reason : Text)
      → (all_passed ts || (all_failed ts && signatures_compatible ts)) ≡ false
      → Meaning b ts cs (leave reason)
  disagreed-Meaning reason h =
      leave-Meaning b ts cs reason
        (λ c r. ground (arith, Failed-all ts r.failed, Agreed-compatible ts r.agreed))
        (λ c o. ground (arith, true-all (λ (t : TrialRecord). t.outcome.passed) ts o.passed))

  passed-Meaning : all_passed ts ≡ true → Meaning b ts cs (passed_verdict ts)
  unfolding passed_verdict leave_unresolved
  passed-Meaning h = record {
    keyed = λ c. ground arith;
    required_iff = λ c. (λ k. absurd (ground arith), λ r. absurd (not_both ts ctl.ran h r.failed));
    optional_iff = λ c. (
      λ k. record {
        controlled = ctl;
        passed = λ t m. all-true _ ts h m;
        external = ground arith;
        unavailable = ground arith;
      },
      λ o. ground (arith, o.external, o.unavailable),
    );
    backed = λ c k. ground arith;
    bare = λ c k. ground arith;
  }

  failed-Meaning :
      all_passed ts ≡ false
      → all_failed ts ≡ true
      → signatures_compatible ts ≡ true
      → Meaning b ts cs (failed_verdict ts (changed_set cs))
  unfolding failed_verdict leave_unresolved
  failed-Meaning h f k = record {
    keyed = λ c. ground arith;
    required_iff = λ c. (
      λ e. record {
        controlled = ctl;
        failed = all-Failed ts f;
        agreed = compatible-Agreed ts (all-Failed ts f) k;
        alone = single_change cs c (ground arith) (ground arith);
      },
      λ r. let (only, one, e) = r.alone in ground (arith, change_single cs c only one e),
    );
    optional_iff = λ c. (
      λ e. absurd (ground arith),
      λ o. absurd (not_both ts ctl.ran (true-all _ ts o.passed) (all-Failed ts f)),
    );
    backed = λ c e. ground arith;
    bare = λ c e. ground arith;
  }

abbrev disagreed : String
disagreed = "variant runs disagreed with each other (unstable under treatment)"

enforced_trials-Meaning :
    (b : BaselineVerdict) (ts : List TrialRecord) (cs : List CandidateEvidence)
    → Controlled b ts
    → (f : CandidateEvidence → CausalConclusion) × (classify_enforced_trials ts cs ≡ map f cs)
      × Meaning b ts cs f
unfolding classify_enforced_trials
enforced_trials-Meaning b ts cs ctl = elim (Bool-cases (all_passed ts)) [
  | inl p ↦ (_, rw p refl, passed-Meaning b ts cs ctl p)
  | inr q ↦ elim (Bool-cases (all_failed ts && signatures_compatible ts)) [
    | inl a ↦ (_, rw (q, a) refl, failed-Meaning b ts cs ctl q (&&-true _ _ a).0 (&&-true _ _ a).1)
    | inr d ↦
        (leave (lit disagreed), rw (q, d) refl, disagreed-Meaning b ts cs ctl _ (ground arith))
  ]
]

held_not :
    (t : TrialRecord)
    → not (is_enforced t.enforcement.status) ≡ true
    → ¬ (t.enforcement.status ≡ enforced)
unfolding is_enforced
held_not t q h = ground arith

trials-Meaning :
    (b : BaselineVerdict) (ts : List TrialRecord) (cs : List CandidateEvidence)
    → supports_experiments b ≡ true
    → ts ≢ []
    → (o : Option TrialRecord) → find (λ t. not (is_enforced t.enforcement.status)) ts ≡ o
    → (f : CandidateEvidence → CausalConclusion) × (classify_trials o ts cs ≡ map f cs)
      × Meaning b ts cs f
unfolding classify_trials
trials-Meaning b ts cs s n none e = enforced_trials-Meaning b ts cs (record {
  supported = s;
  ran = n;
  held = λ t m. enforced-is t.enforcement.status (ground (arith, find-none _ ts e m));
})
trials-Meaning b ts cs s n (some bad) e =
    let (m, q) = find-some (λ (t : TrialRecord). not (is_enforced t.enforcement.status)) ts e in
    (
      _,
      refl,
      leave-Meaning b ts cs _ (λ c r. held_not bad q (r.controlled.held bad m))
          (λ c o. held_not bad q (o.controlled.held bad m)),
    )

pub intervention-Meaning :
    (b : BaselineVerdict) (ts : List TrialRecord) (cs : List CandidateEvidence)
    → (f : CandidateEvidence → CausalConclusion) × (classify_intervention b ts cs ≡ map f cs)
      × Meaning b ts cs f
unfolding classify_intervention
intervention-Meaning b ts cs = elim (Bool-cases (supports_experiments b)) [
  | inr u ↦ (
    leave (lit "baseline is not stable-passing (" ++ (Baseline.describe b ++ lit ")")),
    rw u refl,
    leave-Meaning b ts cs _ (λ c r. false≢true (sym u ∙ r.controlled.supported))
        (λ c o. false≢true (sym u ∙ o.controlled.supported)),
  )
  | inl s ↦ go ts s
]
  where
    go :
        (ts : List TrialRecord)
        → supports_experiments b ≡ true
        → (f : CandidateEvidence → CausalConclusion) × (classify_intervention b ts cs ≡ map f cs)
          × Meaning b ts cs f
    go [] s = (
      leave (lit "no trials executed (experiment budget exhausted)"),
      rw s refl,
      leave-Meaning b [] cs _ (λ c r. r.controlled.ran refl) (λ c o. o.controlled.ran refl),
    )
    go (t ∷ ts) s =
        let (f, e, m) = trials-Meaning b (t ∷ ts) cs s (λ k. cc) _ refl in (f, rw s e, m)
