-- ===== src/Core/Digest.antt =====
-- crates/ovid-core/src/digest.rs: content digests `sha256:<hex>`. The hash function of the `sha2`
-- crate, with the hex encoding, is the parameter `sha256_hex`.
use ovid.Prelude.{
  ◌≡◌, ◌↔◌, refl, ap, IsEq, text_eq, Bool, true, Option, none, some, List, [], ◌∷◌, ◌++◌, Text, lit,
  arith, nat_beq, unwrap_or, if◌then◌else◌,
}

pub record Digest : Type 0 where
  pub value : Text

-- `str::strip_prefix`
unfoldable pub strip_prefix : Text → Text → Option Text
strip_prefix [] s = some s
strip_prefix (c ∷ p) [] = none
strip_prefix (c ∷ p) (d ∷ s) = let rest = strip_prefix p s in if nat_beq c d then rest else none

unfoldable pub hex : Digest → Text
hex d = unwrap_or (strip_prefix (lit "sha256:") d.value) d.value

pub strip_prefix-append : (p s : Text) → strip_prefix p (p ++ s) ≡ some s
unfolding strip_prefix
strip_prefix-append [] s = refl
strip_prefix-append (c ∷ p) s = ground (arith, strip_prefix-append p s)

module _ (sha256_hex : Text → Text) where
  unfoldable pub of_bytes : Text → Digest
  of_bytes bytes = record { value = lit "sha256:" ++ sha256_hex bytes }

  -- What `combine` hands to the hasher: each digest and a line feed.
  combined : List Digest → Text
  combined [] = []
  combined (d ∷ ds) = d.value ++ (b'\n' ∷ combined ds)

  unfoldable pub combine : List Digest → Digest
  unfolding of_bytes combined
  combine parts = of_bytes (combined parts)

  pub hex-of_bytes : (bytes : Text) → hex (of_bytes bytes) ≡ sha256_hex bytes
  unfolding hex of_bytes
  hex-of_bytes bytes =
      ap (λ (o : Option Text). unwrap_or o (lit "sha256:" ++ sha256_hex bytes))
        (strip_prefix-append (lit "sha256:") (sha256_hex bytes))

digest_beq : Digest → Digest → Bool
digest_beq a b = text_eq.beq a.value b.value

digest_beq_iff : (a b : Digest) → (digest_beq a b ≡ true) ↔ (a ≡ b)
unfolding digest_beq
digest_beq_iff a b = (
  λ h. ground (arith, (text_eq.beq_iff a.value b.value).0 h),
  λ p. (text_eq.beq_iff a.value b.value).1 (ap (λ (d : Digest). d.value) p),
)

instance unfoldable pub digest_eq : IsEq Digest
unfolding digest_beq digest_beq_iff
digest_eq = record { beq = digest_beq; beq_iff = digest_beq_iff }
