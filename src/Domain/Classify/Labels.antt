-- ===== src/Domain/Classify/Labels.antt =====
-- crates/ovid-domain/src/classify.rs: what each label means, for every list of candidates.
use ovid.Prelude.{
  ℕ, ◌≡◌, refl, sym, ap, ◌∙◌, ◌≢◌, ◌↔◌, ◌≤◌, true, some, List, [], map, ◌++◌, In-append, Text,
  arith, get_elem?, get_elem?-map, In, In-map_back, In-map, keep_if, subst, In-keep_if,
  In-keep_if_back, &&-true,
}
use ovid.Domain.Trial.{TrialRecord, CandidateEvidence}
use ovid.Domain.Baseline.{
  BaselineVerdict, stable_passing, stable_failing, unstable, supports_experiments,
}
use ovid.Domain.Classify.{
  required, optional, unresolved, CausalConclusion, classify_intervention,
  classify_natural_counterfactual, classify_enforced_deny, demonstrated, counterfactual,
}
use ovid.Domain.Classify.Justified.{ProvenRequired, ProvenOptional}
use ovid.Domain.Classify.Intervention.{intervention-Meaning}

-- The conclusion at each candidate's place names the candidate, and says `required` exactly when
-- the trials prove it: a stable passing baseline, trials that all ran enforced and all failed with
-- agreeing signatures, and one changed candidate, of that key.
pub required_iff :
    (b : BaselineVerdict) (ts : List TrialRecord) (cs : List CandidateEvidence) (i : ℕ)
    {c : CandidateEvidence}
    → get_elem? cs i ≡ some c
    → (d : CausalConclusion) × (get_elem? (classify_intervention b ts cs) i ≡ some d)
      × (d.dependency ≡ c.key)
      × ((d.necessity ≡ required) ↔ ProvenRequired b ts cs c)
required_iff b ts cs i {c} h =
    let (f, e, m) = intervention-Meaning b ts cs in
    (f c, rw e (get_elem?-map f cs i h), m.keyed c, m.required_iff c)

-- The conclusion at each candidate's place says `optional` exactly when the baseline is stable and
-- passing, the trials ran, were all enforced and all passed, and the candidate was external and
-- unavailable under the treatment.
pub optional_iff :
    (b : BaselineVerdict) (ts : List TrialRecord) (cs : List CandidateEvidence) (i : ℕ)
    {c : CandidateEvidence}
    → get_elem? cs i ≡ some c
    → (d : CausalConclusion) × (get_elem? (classify_intervention b ts cs) i ≡ some d)
      × (d.dependency ≡ c.key)
      × ((d.necessity ≡ optional) ↔ ProvenOptional b ts c)
optional_iff b ts cs i {c} h =
    let (f, e, m) = intervention-Meaning b ts cs in
    (f c, rw e (get_elem?-map f cs i h), m.keyed c, m.optional_iff c)

-- Every conclusion of an intervention is about one of the candidates. A label `required` or
-- `optional` rests on all the trials, with confidence at least 0.75; an unresolved one names no
-- trial and has confidence 0.
pub classify_intervention_backing :
    (b : BaselineVerdict) (ts : List TrialRecord) (cs : List CandidateEvidence)
    (d : CausalConclusion)
    → In d (classify_intervention b ts cs)
    → (c : CandidateEvidence) × In c cs
      × (d.dependency ≡ c.key)
      × (d.necessity ≢ unresolved → (d.trials ≡ map (λ t. t.label) ts) × (75 ≤ d.confidence))
      × (d.necessity ≡ unresolved → (d.trials ≡ []) × (d.confidence ≡ 0))
classify_intervention_backing b ts cs d m =
    let (f, e, mean) = intervention-Meaning b ts cs in
    let (c, k, p) = In-map_back f cs (subst (In d) e m) in
    (
      c,
      k,
      ap (λ (x : CausalConclusion). x.dependency) p ∙ mean.keyed c,
      subst
          (λ (x : CausalConclusion).
            x.necessity ≢ unresolved → (x.trials ≡ map (λ t. t.label) ts) × (75 ≤ x.confidence))
          (sym p) (mean.backed c),
      subst
          (λ (x : CausalConclusion).
            x.necessity ≡ unresolved → (x.trials ≡ []) × (x.confidence ≡ 0))
          (sym p) (mean.bare c),
    )

shown_sound :
    (how : Text) (b : BaselineVerdict) (labels : List Text) (cs : List CandidateEvidence)
    (d : CausalConclusion)
    → In d (counterfactual how b labels cs)
    → (supports_experiments b ≡ true)
      × (d.necessity ≡ optional)
      × (d.trials ≡ labels)
      × ((c : CandidateEvidence) × In c cs
          × (d.dependency ≡ c.key)
          × (c.externally_controlled ≡ true)
          × (c.unavailable_under_treatment ≡ true))
unfolding counterfactual supports_experiments
shown_sound how (stable_passing runs) labels cs d m =
    let (c, k, e) = In-map_back _ (keep_if demonstrated cs) m in
    let (k', t) = In-keep_if demonstrated cs k in
    (
      refl,
      ap (λ (x : CausalConclusion). x.necessity) e,
      ap (λ (x : CausalConclusion). x.trials) e,
      (
        c,
        k',
        ap (λ (x : CausalConclusion). x.dependency) e,
        (&&-true c.externally_controlled _ t).0,
        (&&-true c.externally_controlled _ t).1,
      ),
    )
shown_sound how _ labels cs d m = elim m [ ]

-- Both counterfactual classifiers label `optional` only, on all the baseline trials, and only what
-- the evidence shows: the baseline is stable and passing, and the conclusion is about a candidate
-- that is external and was unavailable.
pub counterfactual_sound :
    (b : BaselineVerdict) (labels : List Text) (cs : List CandidateEvidence) (d : CausalConclusion)
    → In d (classify_natural_counterfactual b labels cs ++ classify_enforced_deny b labels cs)
    → (supports_experiments b ≡ true)
      × (d.necessity ≡ optional)
      × (d.trials ≡ labels)
      × ((c : CandidateEvidence) × In c cs
          × (d.dependency ≡ c.key)
          × (c.externally_controlled ≡ true)
          × (c.unavailable_under_treatment ≡ true))
unfolding classify_natural_counterfactual classify_enforced_deny
counterfactual_sound b labels cs d m =
    In-append (classify_natural_counterfactual b labels cs) m (shown_sound _ b labels cs d)
      (shown_sound _ b labels cs d)

-- On a stable passing baseline each candidate that is external and was unavailable gets a
-- conclusion from both counterfactual classifiers.
pub counterfactual_complete :
    (b : BaselineVerdict) (labels : List Text) (cs : List CandidateEvidence) (c : CandidateEvidence)
    → supports_experiments b ≡ true
    → In c cs
    → c.externally_controlled ≡ true
    → c.unavailable_under_treatment ≡ true
    → In c.key (map (λ d. d.dependency) (classify_natural_counterfactual b labels cs))
      × In c.key (map (λ d. d.dependency) (classify_enforced_deny b labels cs))
unfolding classify_natural_counterfactual classify_enforced_deny counterfactual supports_experiments
counterfactual_complete (stable_passing runs) labels cs c s m e u =
    let k = In-keep_if_back demonstrated cs m (ground arith) in
    (In-map _ (In-map _ k), In-map _ (In-map _ k))
counterfactual_complete (stable_failing runs x) labels cs c s m e u = cc
counterfactual_complete (unstable runs) labels cs c s m e u = cc
