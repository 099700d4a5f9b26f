-- ===== src/Domain/Classify/Changes.antt =====
-- crates/ovid-domain/src/classify.rs: what the tests on signatures and on the changed set decide.
use ovid.Prelude.{
  ◌≡◌, refl, sym, ap, ap₂, subst, ◌∙◌, ◌⊎◌, inl, inr, Bool, true, false, ◌&&◌, ◌||◌, none, some,
  List, [], ◌∷◌, Text, arith, length, any, is_none, In, here, there, OnlyOne, first, later,
  Bool-cases, Option-cases, all-true, true-all, option_text_eq, nat_beq, false≢true, false≢true,
  In-keep_if_back,
}
use ovid.Domain.Dependency.{key_eq, key_beq_iff}
use ovid.Domain.Trial.{TrialRecord, CandidateEvidence}
use ovid.Domain.Classify.{changed_set, signatures_compatible, demonstrated, first_signature}
use ovid.Domain.Classify.Justified.{Changed}

first_signature-none :
    (ts : List TrialRecord) {t : TrialRecord}
    → first_signature ts ≡ none
    → In t ts
    → t.outcome.failure_signature ≡ none
unfolding first_signature
first_signature-none [] h m = elim m [ ]
first_signature-none (x ∷ xs) h (here e) =
    ground (arith, ap (λ (t : TrialRecord). t.outcome.failure_signature) e)
first_signature-none (x ∷ xs) h (there m) = first_signature-none xs (ground arith) m

first_signature-some :
    (ts : List TrialRecord) {r : Text}
    → first_signature ts ≡ some r
    → (u : TrialRecord) × In u ts × (u.outcome.failure_signature ≡ some r)
unfolding first_signature
first_signature-some [] h = absurd (cc)
first_signature-some (x ∷ xs) h = elim (Option-cases x.outcome.failure_signature) [
  | inr (s, e) ↦ (x, here refl, ground arith)
  | inl e ↦ let (u, m, q) = first_signature-some xs (ground arith) in (u, there m, q)
]

abbrev pub Agreed : List TrialRecord → Type 0
Agreed ts =
    (t u : TrialRecord) (s r : Text)
    → In t ts
    → In u ts
    → t.outcome.failure_signature ≡ some s
    → u.outcome.failure_signature ≡ some r
    → s ≡ r

abbrev pub Failed : List TrialRecord → Type 0
Failed ts = (t : TrialRecord) → In t ts → t.outcome.passed ≡ false

pub compatible-Agreed :
    (ts : List TrialRecord) → Failed ts → signatures_compatible ts ≡ true → Agreed ts
unfolding signatures_compatible
compatible-Agreed ts fails h t u s r mt mu et eu = ground (
  arith,
  fails t mt,
  fails u mu,
  all-true _ ts h mt,
  all-true _ ts h mu,
  option_text_eq.beq_iff t.outcome.failure_signature (first_signature ts),
  option_text_eq.beq_iff u.outcome.failure_signature (first_signature ts),
)

pub Agreed-compatible : (ts : List TrialRecord) → Agreed ts → signatures_compatible ts ≡ true
unfolding signatures_compatible
Agreed-compatible ts agreed =
    true-all _ ts (λ t m.
      one t m (Option-cases t.outcome.failure_signature) (Option-cases (first_signature ts)))
  where
    one :
        (t : TrialRecord)
        → In t ts
        → (t.outcome.failure_signature ≡ none)
          ⊎ ((s : Text) × (t.outcome.failure_signature ≡ some s))
        → (first_signature ts ≡ none) ⊎ ((s : Text) × (first_signature ts ≡ some s))
        → (t.outcome.passed
            || (is_none t.outcome.failure_signature
                || option_text_eq.beq t.outcome.failure_signature (first_signature ts)))
          ≡ true
    one t m (inl e) f = ground arith
    one t m (inr (s, e)) (inl f) = ground (arith, first_signature-none ts f m)
    one t m (inr (s, e)) (inr (r, f)) =
        let (u, mu, eu) = first_signature-some ts f in
        ground (
          arith,
          agreed t u s r m mu e eu,
          option_text_eq.beq_iff t.outcome.failure_signature (first_signature ts),
        )

is_Changed :
    (c : CandidateEvidence) → (demonstrated c && c.attempted_in_baseline) ≡ true → Changed c
is_Changed c h = record {
  external = ground arith;
  unavailable = ground arith;
  attempted = ground arith;
}

Changed-is :
    (c : CandidateEvidence) → Changed c → (demonstrated c && c.attempted_in_baseline) ≡ true
Changed-is c h = ground (arith, h.external, h.unavailable, h.attempted)

abbrev changes : CandidateEvidence → Bool
changes c = demonstrated c && c.attempted_in_baseline

-- One change in the filtered list is exactly one change in the whole list.
none-Changed :
    (cs : List CandidateEvidence)
    → changed_set cs ≡ []
    → (c : CandidateEvidence) → In c cs
    → ¬ Changed c
none-Changed cs h c m k = elim (subst (In c) h (In-keep_if_back changes cs m (Changed-is c k))) [ ]

unchanged_set :
    (cs : List CandidateEvidence)
    → ((c : CandidateEvidence) → In c cs → ¬ Changed c)
    → changed_set cs ≡ []
unchanged_set [] h = refl
unchanged_set (x ∷ xs) h = elim (Bool-cases (changes x)) [
  | inl t ↦ absurd (h x (here refl) (is_Changed x t))
  | inr f ↦ rw f (unchanged_set xs (λ c m. h c (there m)))
]

changed_set-one :
    (cs : List CandidateEvidence) {a : CandidateEvidence}
    → changed_set cs ≡ a ∷ []
    → OnlyOne Changed a cs
changed_set-one [] h = absurd (cc)
changed_set-one (x ∷ xs) h = elim (Bool-cases (changes x)) [
  | inl t ↦ first (ground arith) (is_Changed x t) (none-Changed xs (ground arith))
  | inr f ↦ later (λ k. false≢true (sym f ∙ Changed-is x k)) (changed_set-one xs (rw f at h))
]

one-changed_set :
    {a : CandidateEvidence} {cs : List CandidateEvidence}
    → OnlyOne Changed a cs
    → changed_set cs ≡ a ∷ []
one-changed_set (first {xs = xs} {x = x} e k rest) =
    rw (Changed-is x k) (ap₂ (λ y ys. y ∷ ys) e (unchanged_set xs rest))
one-changed_set (later {xs = xs} {x = x} n o) = elim (Bool-cases (changes x)) [
  | inl t ↦ absurd (n (is_Changed x t))
  | inr f ↦ rw f (one-changed_set o)
]

-- `changed.len() == 1` and membership of the key, as one statement.
pub single_change :
    (cs : List CandidateEvidence) (c : CandidateEvidence)
    → nat_beq (length (changed_set cs)) 1 ≡ true
    → any (λ x. key_eq.beq x.key c.key) (changed_set cs) ≡ true
    → (only : CandidateEvidence) × OnlyOne Changed only cs × (only.key ≡ c.key)
single_change cs c n m = go (changed_set cs) refl n m
  where
    go :
        (l : List CandidateEvidence)
        → changed_set cs ≡ l
        → nat_beq (length l) 1 ≡ true
        → any (λ x. key_eq.beq x.key c.key) l ≡ true
        → (only : CandidateEvidence) × OnlyOne Changed only cs × (only.key ≡ c.key)
    go [] e n m = absurd (cc)
    go (x ∷ []) e n m = (x, changed_set-one cs e, ground (arith, key_beq_iff x.key c.key))
    go (x ∷ y ∷ l) e n m = absurd (ground arith)

pub change_single :
    (cs : List CandidateEvidence) (c only : CandidateEvidence)
    → OnlyOne Changed only cs
    → only.key ≡ c.key
    → (nat_beq (length (changed_set cs)) 1 && any (λ x. key_eq.beq x.key c.key) (changed_set cs))
      ≡ true
change_single cs c only o e = rw (one-changed_set o) (ground (arith, key_beq_iff only.key c.key))
