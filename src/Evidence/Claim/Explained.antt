-- ===== src/Evidence/Claim/Explained.antt =====
-- crates/ovid-evidence/src/claim.rs: what an explanation accounts for, and what proposals can
-- reach.
use mathlib.Core.Option.{some-injective}
use ovid.Prelude.{
  subst, Option, In, here, there, ◌↔◌, sym, inl, inr, none, Option-cases, ℕ, ◌+◌, ◌≡◌, refl, ap,
  ◌∙◌, true, false, some, List, [], ◌∷◌, ◌++◌, all, length, length-append, keep_if, is_empty,
  is_none, F64, Floats, text_eq, arith,
}
use ovid.Prelude.Order.{lookup, upsert, Ascending, lookup-upsert_const, text_order}
use ovid.Core.Id.{OvidId}
use ovid.Core.Trust.{TrustTier}
use ovid.Evidence.Ledger.{EvidenceLedger}
use ovid.Evidence.Ledger
use ovid.Evidence.Record.{EvidenceRecord}
use ovid.Evidence.Confidence.{proposal_only, cap_value, combine_confidence}
use ovid.Evidence.Claim.{
  Claim, ClaimStore, Explanation, resolve, missing, is_t5, tiers_of, cap_of, rated, put_claim, get,
  explanation, explained, explain,
}

-- The records that the ledger has for some ids.
abbrev pub Holds : EvidenceLedger → List OvidId → EvidenceRecord → Type 0
Holds ledger ids r = (id : OvidId) × In id ids × (Ledger.get ledger id ≡ some r)

wider :
    (ledger : EvidenceLedger) (id : OvidId) (ids : List OvidId) (r : EvidenceRecord)
    → Holds ledger ids r
    → Holds ledger (id ∷ ids) r
wider ledger id ids r (d, j, h) = (d, there j, h)

module _ (ledger : EvidenceLedger) (id : OvidId) (ids : List OvidId) (r : EvidenceRecord) where
  held_first :
      (x : EvidenceRecord)
      → Ledger.get ledger id ≡ some x
      → (In r (resolve ledger ids) → Holds ledger ids r)
      → In r (x ∷ resolve ledger ids)
      → Holds ledger (id ∷ ids) r
  held_first x e rest (here p) = (id, here refl, e ∙ ap some (sym p))
  held_first x e rest (there i) = wider ledger id ids r (rest i)

  found_first :
      (x : EvidenceRecord)
      → Ledger.get ledger id ≡ some x
      → (Holds ledger ids r → In r (resolve ledger ids))
      → (d : OvidId) → In d (id ∷ ids)
      → Ledger.get ledger d ≡ some r
      → In r (x ∷ resolve ledger ids)
  found_first x e rest d (here p) h =
      here (some-injective r x (sym h ∙ (ap (Ledger.get ledger) p ∙ e)))
  found_first x e rest d (there j) h = there (rest (d, j, h))

  found_later :
      Ledger.get ledger id ≡ none
      → (Holds ledger ids r → In r (resolve ledger ids))
      → (d : OvidId) → In d (id ∷ ids)
      → Ledger.get ledger d ≡ some r
      → In r (resolve ledger ids)
  found_later e rest d (here p) h =
      let q : none ≡ some r = sym e ∙ (ap (Ledger.get ledger) (sym p) ∙ h) in absurd (cc)
  found_later e rest d (there j) h = rest (d, j, h)

unresolved :
    (ledger : EvidenceLedger) (id : OvidId) (ids : List OvidId)
    → Ledger.get ledger id ≡ none
    → resolve ledger (id ∷ ids) ≡ resolve ledger ids
unfolding resolve
unresolved ledger id ids e =
    ap
      (λ (o : Option EvidenceRecord). elim o [
        | some r ↦ r ∷ resolve ledger ids
        | none ↦ resolve ledger ids
      ])
      e

resolved :
    (ledger : EvidenceLedger) (id : OvidId) (ids : List OvidId) {x : EvidenceRecord}
    → Ledger.get ledger id ≡ some x
    → resolve ledger (id ∷ ids) ≡ x ∷ resolve ledger ids
unfolding resolve
resolved ledger id ids e =
    ap
      (λ (o : Option EvidenceRecord). elim o [
        | some r ↦ r ∷ resolve ledger ids
        | none ↦ resolve ledger ids
      ])
      e

-- What is resolved is what the ledger has for some of the ids.
resolve-Holds :
    (ledger : EvidenceLedger) (ids : List OvidId) (r : EvidenceRecord)
    → In r (resolve ledger ids) ↔ Holds ledger ids r
unfolding resolve
resolve-Holds ledger [] r = (λ i. elim i [ ], λ (d, i, h). elim i [ ])
resolve-Holds ledger (id ∷ ids) r =
    let rest = resolve-Holds ledger ids r in
    elim (Option-cases (Ledger.get ledger id)) [
      | inl e ↦
          subst (λ rs. In r rs ↔ Holds ledger (id ∷ ids) r) (sym (unresolved ledger id ids e))
            (
              λ i. wider ledger id ids r (rest.0 i),
              λ (d, i, h). found_later ledger id ids r e rest.1 d i h,
            )
      | inr (x, e) ↦
          subst (λ rs. In r rs ↔ Holds ledger (id ∷ ids) r) (sym (resolved ledger id ids e))
            (
              held_first ledger id ids r x e rest.0,
              λ (d, i, h). found_first ledger id ids r x e rest.1 d i h,
            )
    ]

resolve-missing :
    (ledger : EvidenceLedger) (ids : List OvidId)
    → length (resolve ledger ids) + length (missing ledger ids) ≡ length ids
unfolding resolve missing
resolve-missing ledger [] = refl
resolve-missing ledger (id ∷ ids) = ground (arith, resolve-missing ledger ids)

-- The claim is the stored one, the evidence for it is what the ledger has of its supports, the
-- evidence against it what the ledger has of what contradicts it, as many records as there are ids
-- less those reported missing, and these are exactly the cited ids that the ledger does not have.
pub record IsComplete (ledger : EvidenceLedger) (claim : Claim) (e : Explanation) : Type 0 where
  pub same : e.claim ≡ claim
  pub supporting : (r : EvidenceRecord) → In r e.supporting_evidence ↔ Holds ledger claim.supports r
  pub contradicting :
      (r : EvidenceRecord) → In r e.contradicting_evidence ↔ Holds ledger claim.contradicts r
  pub accounted :
      length e.supporting_evidence + length e.contradicting_evidence + length e.missing_evidence
      ≡ length claim.supports + length claim.contradicts
  pub absent :
      e.missing_evidence
      ≡ keep_if (λ id. is_none (Ledger.get ledger id)) claim.supports
        ++ keep_if (λ id. is_none (Ledger.get ledger id)) claim.contradicts

explanation-IsComplete :
    (ledger : EvidenceLedger) (claim : Claim) → IsComplete ledger claim (explanation ledger claim)
unfolding explanation missing
explanation-IsComplete ledger claim = record {
  same = refl;
  supporting = resolve-Holds ledger claim.supports;
  contradicting = resolve-Holds ledger claim.contradicts;
  accounted = omega (
    arith,
    resolve-missing ledger claim.supports,
    resolve-missing ledger claim.contradicts,
    length-append (missing ledger claim.supports) (missing ledger claim.contradicts),
  );
  absent = refl;
}

-- A claim that was put into a store whose keys ascend is explained: the supporting evidence is what
-- the ledger has of the claim's supports, the contradicting evidence what it has of what contradicts
-- the claim, and what is reported missing are the cited ids that the ledger does not have.
pub put_claim-explain :
    (fl : Floats) (ledger : EvidenceLedger) (claim : Claim) (store : ClaimStore)
    → Ascending store.claims
    → let (c, after) = put_claim fl ledger claim store in
      (explain after ledger claim.id ≡ some (explanation ledger c))
      × IsComplete ledger c (explanation ledger c)
unfolding put_claim explain explained get rated
put_claim-explain fl ledger claim store a =
    let c = rated fl ledger claim in
    let found : lookup claim.id (upsert claim.id (λ _. c) c store.claims) ≡ some c =
      lookup-upsert_const claim.id claim.id c store.claims a
      ∙ rw ((text_eq.beq_iff claim.id claim.id).1 refl) refl in
    (ap (explained ledger) found, explanation-IsComplete ledger c)

-- What is documented of `f64::min` and `f64::max`: the least is not above the second, and the
-- greatest is not above a bound that neither is above; and 0.5 is not below 0.
pub record FloatLaws (fl : Floats) : Type 0 where
  pub min_second : (a b : F64) → fl.lt b (fl.min a b) ≡ false
  pub max_bound :
      (a b c : F64) → fl.lt c a ≡ false → fl.lt c b ≡ false → fl.lt c (fl.max a b) ≡ false
  pub half : fl.lt (fl.decimal 50 2) (fl.decimal 0 0) ≡ false

-- A confidence with the cap of a proposal is not above it.
capped :
    (fl : Floats) (laws : FloatLaws fl) (tiers : List TrustTier) (contradictions : ℕ)
    → fl.lt (cap_value fl proposal_only) (combine_confidence fl tiers contradictions proposal_only)
      ≡ false
unfolding combine_confidence cap_value
capped fl laws [] contradictions = laws.half
capped fl laws (t ∷ tiers) contradictions =
    laws.max_bound _ _ (fl.decimal 50 2) (laws.min_second _ (fl.decimal 50 2)) laws.half

-- With floats as documented, a claim whose evidence in the ledger is there, and all proposals, is
-- stored with a confidence that is not above 0.5, whatever its states and the number of its
-- records.
pub put_claim-proposals :
    (fl : Floats) (laws : FloatLaws fl) (ledger : EvidenceLedger) (claim : Claim)
    (store : ClaimStore)
    → all is_t5 (tiers_of (resolve ledger claim.supports)) ≡ true
    → is_empty (tiers_of (resolve ledger claim.supports)) ≡ false
    → fl.lt (cap_value fl proposal_only) (put_claim fl ledger claim store).0.confidence ≡ false
unfolding put_claim rated cap_of
put_claim-proposals fl laws ledger claim store t n =
    rw (t, n) (capped fl laws (tiers_of (resolve ledger claim.supports)) (length claim.contradicts))
