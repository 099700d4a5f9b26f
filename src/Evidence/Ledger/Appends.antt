-- ===== src/Evidence/Ledger/Appends.antt =====
-- crates/ovid-evidence/src/ledger.rs: what appending does to verification and to reopening.
use ovid.Prelude.{
  ◌≡◌, refl, sym, ap, ◌∙◌, subst, true, false, Option, none, some, List, [], ◌∷◌, ◌++◌, Text,
  Bool-cases, Option-cases, inl, inr, option_eq,
}
use ovid.Core.Digest.{Digest, digest_eq}
use ovid.Evidence.Record.{EvidenceRecord, JsonCodec, digest}
use ovid.Evidence.Ledger.Chain.{verified-parts}
use ovid.Evidence.Ledger.Lines.{
  is_ended, is_one_line, lines-line_of, lines-written, written-is_ended,
}
use ovid.Evidence.Ledger.{
  Result, ok, err, File, EvidenceLedger, empty, head_eq, is_blank, note, load, open_ledger, linked,
  written, append, complete, lines, line_of, read_lines, iter_all, check_links, compare_head,
  verify_records, verify_chain, ok_injective, prepend,
}

-- What `serde_json` documents of the text of a record without floats: it parses back, it is not
-- blank, and it is one line, since control characters are escaped.
pub record IsLine (k : JsonCodec) (r : EvidenceRecord) : Type 0 where
  pub round_trip : k.parse_record (k.record_json r) ≡ some r
  pub not_blank : is_blank (k.record_json r) ≡ false
  pub one_line : is_one_line (k.record_json r) ≡ true

head_eq_of : (a b : Option Digest) → a ≡ b → head_eq a b ≡ true
head_eq_of a b p = ((option_eq ⦃e = digest_eq⦄).beq_iff a b).1 p

prepend-ok :
    (x : EvidenceRecord) (r o : Result (List EvidenceRecord)) {rs : List EvidenceRecord}
    → o ≡ r
    → prepend x r ≡ ok rs
    → (rest : List EvidenceRecord) × (o ≡ ok rest) × (x ∷ rest ≡ rs)
prepend-ok x (ok rest) o e h = (rest, e, ok_injective h)
prepend-ok x (err b) o e h = absurd (cc)

module _ (k : JsonCodec) where
  load-append :
      (l m : EvidenceLedger) (lines : List Text) (r : EvidenceRecord)
      → IsLine k r
      → load k l lines ≡ ok m
      → load k l (lines ++ (k.record_json r ∷ [])) ≡ ok (note k m r)
  unfolding load
  load-append l m [] r j h =
      rw (j.not_blank, j.round_trip) (ap (λ x. ok (note k x r)) (ok_injective h))
  load-append l m (line ∷ lines) r j h = elim (Bool-cases (is_blank line)) [
    | inl t ↦ rw t (load-append l m lines r j (rw t at h))
    | inr f ↦ elim (Option-cases (k.parse_record line)) [
      | inl e ↦ let bad = rw (f, e) at h in absurd (cc)
      | inr (x, e) ↦ rw (f, e) (load-append (note k l x) m lines r j (rw (f, e) at h))
    ]
  ]

  read_lines-append :
      (lines : List Text) (rs : List EvidenceRecord) (r : EvidenceRecord)
      → IsLine k r
      → read_lines k lines ≡ ok rs
      → read_lines k (lines ++ (k.record_json r ∷ [])) ≡ ok (rs ++ (r ∷ []))
  unfolding read_lines
  read_lines-append [] rs r j h =
      rw (j.not_blank, j.round_trip) (ap (λ l. ok (l ++ (r ∷ []))) (ok_injective h))
  read_lines-append (line ∷ lines) rs r j h = elim (Bool-cases (is_blank line)) [
    | inl t ↦ rw t (read_lines-append lines rs r j (rw t at h))
    | inr f ↦ elim (Option-cases (k.parse_record line)) [
      | inl e ↦ let bad = rw (f, e) at h in absurd (cc)
      | inr (x, e) ↦
          let (rest, read, whole) =
            prepend-ok x (read_lines k lines) (read_lines k lines) refl (rw (f, e) at h) in
          rw (f, e)
            (ap (prepend x) (read_lines-append lines rest r j read)
              ∙ ap (λ l. ok (l ++ (r ∷ []))) whole)
    ]
  ]

  check_links-append :
      (p q : Option Digest) (rs : List EvidenceRecord) (r : EvidenceRecord)
      → check_links k p rs ≡ ok q
      → r.previous ≡ q
      → check_links k p (rs ++ (r ∷ [])) ≡ ok (some (digest k r))
  unfolding check_links
  check_links-append p q [] r h e = rw (head_eq_of r.previous p (e ∙ sym (ok_injective h))) refl
  check_links-append p q (x ∷ rs) r h e = elim (Bool-cases (head_eq x.previous p)) [
    | inl t ↦ rw t (check_links-append (some (digest k x)) q rs r (rw t at h) e)
    | inr f ↦ let bad = rw f at h in absurd (cc)
  ]

  written-reads :
      (f : File) (rs : List EvidenceRecord) (r : EvidenceRecord)
      → IsLine k r
      → is_ended f ≡ true
      → iter_all k f ≡ ok rs
      → iter_all k (written f (line_of (k.record_json r))) ≡ ok (rs ++ (r ∷ []))
  unfolding iter_all written
  written-reads none rs r j e h =
      ap (read_lines k) (lines-line_of (k.record_json r) j.one_line)
      ∙ subst (λ l. read_lines k (k.record_json r ∷ []) ≡ ok (l ++ (r ∷ []))) (ok_injective h)
          (read_lines-append [] [] r j refl)
  written-reads (some old) rs r j e h =
      ap (read_lines k) (lines-written old (k.record_json r) e j.one_line)
      ∙ read_lines-append (lines old) rs r j h

  -- Appending keeps the ledger verifiable: where the chain verifies, the file ends its last line,
  -- the linked record's JSON is one line that parses back, and the write is complete, the new file
  -- verifies against the new ledger and ends its last line, and the new head is the digest that
  -- `append` returned.
  pub append-verify_chain :
      (l : EvidenceLedger) (f : File) (r : EvidenceRecord)
      → IsLine k (linked l r)
      → is_ended f ≡ true
      → verify_chain k l f ≡ ok l.head
      → let (d, l', f') = append k complete l f r in
        (verify_chain k l' f' ≡ ok l'.head)
        × (is_ended f' ≡ true)
        × (d ≡ ok (digest k (linked l r)))
        × (l'.head ≡ some (digest k (linked l r)))
  unfolding append note verify_chain verify_records compare_head
  append-verify_chain l f r j e h =
      let (rs, read, checked, _) = verified-parts k l f l.head h in
      let line = linked l r in
      let whole = written-reads f rs line j e read in
      let links = check_links-append none l.head rs line checked refl in
      let matches = head_eq_of (some (digest k line)) (some (digest k line)) refl in
      (rw (whole, links, matches) refl, written-is_ended f (k.record_json line), refl, refl)

  -- Reopening after a complete append, to a file that ends its last line, of a record whose JSON
  -- with its link is one line that parses back, gives the ledger that was in memory: the head, the
  -- count and the index.
  pub open_ledger-append :
      (l : EvidenceLedger) (f : File) (r : EvidenceRecord)
      → IsLine k (linked l r)
      → is_ended f ≡ true
      → open_ledger k f ≡ ok l
      → open_ledger k (append k complete l f r).2 ≡ ok (append k complete l f r).1
  unfolding append open_ledger written
  open_ledger-append l none r j e h =
      ap (load k empty) (lines-line_of (k.record_json (linked l r)) j.one_line)
      ∙ load-append empty l [] (linked l r) j h
  open_ledger-append l (some old) r j e h =
      ap (load k empty) (lines-written old (k.record_json (linked l r)) e j.one_line)
      ∙ load-append empty l (lines old) (linked l r) j h
