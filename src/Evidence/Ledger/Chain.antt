-- ===== src/Evidence/Ledger/Chain.antt =====
-- crates/ovid-evidence/src/ledger.rs: a chain has one list of records for its head.
use ovid.Prelude.{
  ◌≡◌, refl, sym, ap, ◌∙◌, subst, true, Option, none, some, List, [], ◌∷◌, ◌++◌, Bool-cases, inl,
  inr, ap₂, option_eq,
}
use mathlib.Core.List.{append_assoc, append-nil}
use ovid.Core.Digest.{Digest, digest_eq}
use ovid.Evidence.Record.{EvidenceRecord, JsonCodec, digest}
use ovid.Evidence.Ledger.{
  Result, ok, err, File, EvidenceLedger, head_eq, iter_all, check_links, compare_head,
  verify_records, verify_chain, ok_injective,
}

module _ (k : JsonCodec) where
  -- The records are linked one to the next, and the head is the last one's digest.
  pub data Chain : List EvidenceRecord → Option Digest → Type 0 where
    nothing : {rs : List EvidenceRecord} {h : Option Digest} → rs ≡ [] → h ≡ none → Chain rs h
    link :
        {rs rs' : List EvidenceRecord} {h : Option Digest} (r : EvidenceRecord)
        → Chain rs r.previous
        → rs' ≡ rs ++ (r ∷ [])
        → h ≡ some (digest k r)
        → Chain rs' h

  head_eq_iff : (a b : Option Digest) → head_eq a b ≡ true → a ≡ b
  head_eq_iff a b h = ((option_eq ⦃e = digest_eq⦄).beq_iff a b).0 h

  check_links-Chain :
      (p h : Option Digest) (pre rs : List EvidenceRecord)
      → Chain pre p
      → check_links k p rs ≡ ok h
      → Chain (pre ++ rs) h
  unfolding check_links
  check_links-Chain p h pre [] c e = rw append-nil (subst (Chain pre) (ok_injective e) c)
  check_links-Chain p h pre (r ∷ rs) c e = elim (Bool-cases (head_eq r.previous p)) [
    | inl t ↦
        subst (λ l. Chain l h) (append_assoc pre (r ∷ []) rs)
          (check_links-Chain (some (digest k r)) h (pre ++ (r ∷ [])) rs
            (link r (subst (Chain pre) (sym (head_eq_iff r.previous p t)) c) refl refl) (rw t at e))
    | inr f ↦ let e' = rw f at e in absurd (cc)
  ]

  -- With a collision-free digest two chains of one head are one list.
  Chain-unique :
      ((a b : EvidenceRecord) → digest k a ≡ digest k b → a ≡ b)
      → {rs ss : List EvidenceRecord} {g h : Option Digest} → Chain rs g
      → Chain ss h
      → g ≡ h
      → rs ≡ ss
  Chain-unique inj (nothing l e) (nothing m f) q = l ∙ sym m
  Chain-unique inj (nothing l e) (link r d p f) q = absurd (cc)
  Chain-unique inj (link r c p e) (nothing m f) q = absurd (cc)
  Chain-unique inj (link r c p e) (link s d o f) q =
      let digests : digest k r ≡ digest k s = cc in
      let same = inj r s digests in
      p
      ∙ (ap₂ (λ xs x. xs ++ (x ∷ []))
            (Chain-unique inj c d (ap (λ (x : EvidenceRecord). x.previous) same)) same
          ∙ sym o)

  -- What a successful verification has read.
  pub verified-parts :
      (l : EvidenceLedger) (f : File) (h : Option Digest)
      → verify_chain k l f ≡ ok h
      → (rs : List EvidenceRecord) × (iter_all k f ≡ ok rs)
        × (check_links k none rs ≡ ok h)
        × (h ≡ l.head)
  unfolding verify_chain
  verified-parts l f h e = go (iter_all k f) refl e
    where
      compared :
          (rs : List EvidenceRecord) (c : Result (Option Digest))
          → check_links k none rs ≡ c
          → compare_head l.head c ≡ ok h
          → (check_links k none rs ≡ ok h) × (h ≡ l.head)
      compared rs (err x) c e = absurd (cc)
      compared rs (ok p) c e = elim (Bool-cases (head_eq p l.head)) [
        | inl t ↦
            let same : p ≡ h = ok_injective (rw t at e) in
            (c ∙ ap ok same, sym same ∙ head_eq_iff p l.head t)
        | inr f ↦ let e' = rw f at e in absurd (cc)
      ]

      go :
          (r : Result (List EvidenceRecord))
          → iter_all k f ≡ r
          → verify_records k l.head r ≡ ok h
          → (rs : List EvidenceRecord) × (iter_all k f ≡ ok rs)
            × (check_links k none rs ≡ ok h)
            × (h ≡ l.head)
      go (err x) q e = absurd (cc)
      go (ok rs) q e = let (c, s) = compared rs (check_links k none rs) refl e in (rs, q, c, s)

  -- Tampering is detected: with a digest free of collisions, two files that verify against
  -- ledgers with one head hold the same records in the same order.
  pub verify_chain-tamper_evident :
      (l m : EvidenceLedger) (f g : File) {h i : Option Digest}
      → ((a b : EvidenceRecord) → digest k a ≡ digest k b → a ≡ b)
      → l.head ≡ m.head
      → verify_chain k l f ≡ ok h
      → verify_chain k m g ≡ ok i
      → (rs : List EvidenceRecord) × (iter_all k f ≡ ok rs) × (iter_all k g ≡ ok rs)
  verify_chain-tamper_evident l m f g {h} {i} inj same vf vg =
      let (rs, rf, cf, hf) = verified-parts l f h vf in
      let (ss, rg, cg, hg) = verified-parts m g i vg in
      let e =
        Chain-unique inj (check_links-Chain none h [] rs (nothing refl refl) cf)
          (check_links-Chain none i [] ss (nothing refl refl) cg) (hf ∙ (same ∙ sym hg)) in
      (rs, rf, rg ∙ ap ok (sym e))
