-- ===== src/Evidence/Claim.antt =====
-- crates/ovid-evidence/src/claim.rs: claims and their store. Reading and writing the file is
-- `serde_json` and input and output.
pub mod Explained
use ovid.Prelude.{
  ℕ, Bool, true, false, not, ◌&&◌, ◌||◌, Option, none, some, List, [], ◌∷◌, ◌++◌, Text, all, length,
  keep_if, is_empty, is_none, has_text, text_eq, F64, Floats, if◌then◌else◌,
}
use ovid.Prelude.Order.{upsert, lookup, values, text_order}
use ovid.Core.Id.{OvidId}
use ovid.Core.States.{ClaimStates}
use ovid.Core.Trust.{TrustTier, t5}
use ovid.Evidence.Record.{EvidenceRecord}
use ovid.Evidence.Ledger.{EvidenceLedger}
use ovid.Evidence.Ledger
use ovid.Evidence.Confidence.{
  ConfidenceCap, observed_cap, declared_cap, proposal_only, combine_confidence,
}

pub record Claim : Type 0 where
  pub id : OvidId
  pub predicate : Text
  pub subject : Text
  pub object : Text
  pub states : ClaimStates
  pub confidence : F64
  pub supports : List OvidId
  pub contradicts : List OvidId
  pub normalizer : Text
  pub normalizer_version : Text

pub record Explanation : Type 0 where
  pub claim : Claim
  pub supporting_evidence : List EvidenceRecord
  pub contradicting_evidence : List EvidenceRecord
  pub missing_evidence : List OvidId

pub record ClaimStore : Type 0 where
  pub claims : List (Text × Claim)

-- `filter_map(|id| ledger.get(id))`
unfoldable pub resolve : EvidenceLedger → List OvidId → List EvidenceRecord
resolve ledger [] = []
resolve ledger (id ∷ ids) =
    let rest = resolve ledger ids in elim (Ledger.get ledger id) [ some r ↦ r ∷ rest | none ↦ rest ]

-- The ids that are pushed on the way.
unfoldable pub missing : EvidenceLedger → List OvidId → List OvidId
missing ledger ids = keep_if (λ id. is_none (Ledger.get ledger id)) ids

abbrev pub is_t5 : TrustTier → Bool
is_t5 t5 = true
is_t5 _ = false

abbrev pub tiers_of : List EvidenceRecord → List TrustTier
tiers_of [] = []
tiers_of (r ∷ rs) = r.trust_tier ∷ tiers_of rs

unfoldable pub cap_of : ClaimStates → List TrustTier → ConfidenceCap
cap_of states tiers =
    if all is_t5 tiers && not (is_empty tiers)
    then proposal_only
    else if states.observed || states.causally_required
    then observed_cap
    else declared_cap

-- The claim with its confidence computed anew.
unfoldable pub rated : Floats → EvidenceLedger → Claim → Claim
rated fl ledger claim =
    let tiers = tiers_of (resolve ledger claim.supports) in
    record claim {
      confidence =
          combine_confidence fl tiers (length claim.contradicts) (cap_of claim.states tiers);
    }

-- `ClaimStore::upsert`
unfoldable pub put_claim : Floats → EvidenceLedger → Claim → ClaimStore → Claim × ClaimStore
put_claim fl ledger claim store =
    let c = rated fl ledger claim in (c, record { claims = upsert c.id (λ _. c) c store.claims })

unfoldable pub get : ClaimStore → Text → Option Claim
get store id = lookup id store.claims

matches_predicate : Option Text → Claim → Bool
matches_predicate none c = true
matches_predicate (some p) c = text_eq.beq c.predicate p

matches_term : Option Text → Claim → Bool
matches_term none c = true
matches_term (some t) c = has_text t c.subject || has_text t c.object

unfoldable pub query : Option Text → Option Text → ClaimStore → List Claim
unfolding matches_predicate matches_term
query predicate term store =
    keep_if (matches_term term) (keep_if (matches_predicate predicate) (values store.claims))

unfoldable pub explanation : EvidenceLedger → Claim → Explanation
explanation ledger claim = record {
  claim = claim;
  supporting_evidence = resolve ledger claim.supports;
  contradicting_evidence = resolve ledger claim.contradicts;
  missing_evidence = missing ledger claim.supports ++ missing ledger claim.contradicts;
}

-- What follows the lookup.
unfoldable pub explained : EvidenceLedger → Option Claim → Option Explanation
explained ledger none = none
explained ledger (some claim) = some (explanation ledger claim)

unfoldable pub explain : ClaimStore → EvidenceLedger → Text → Option Explanation
explain store ledger id = explained ledger (get store id)
