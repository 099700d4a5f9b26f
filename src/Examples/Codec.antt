-- ===== src/Examples/Codec.antt =====
-- A stand-in for `serde_json` and `sha2` on evidence records: a brace, then each text after its
-- length. It meets what the ledger asks of them.
use mathlib.Core.Option.{some-injective}
use ovid.Prelude.{
  contains, list_beq, starts_with, ℕ, zero, suc, ◌≡◌, true, refl, sym, ap, ap₂, ◌∙◌, Option, none,
  some, [], ◌∷◌, ◌++◌, Text, length, take, drop,
}
use ovid.Core.Digest.{Digest, hex, hex-of_bytes}
use ovid.Core.Trust.{TrustTier, t0, t1, t2, t3, t4, t5}
use ovid.Evidence.Record.{EvidenceRecord, JsonCodec, digest}
use ovid.Evidence.Ledger.{is_blank, all_blank}
use ovid.Evidence.Ledger.Lines.{is_one_line}
use ovid.Evidence.Ledger.Appends.{IsLine}

write_text : Text → Text → Text
write_text t rest = length t ∷ (t ++ rest)

write_option : Option Text → Text → Text
unfolding write_text
write_option none rest = 0 ∷ rest
write_option (some t) rest = 1 ∷ write_text t rest

abbrev digest_text : Option Digest → Option Text
digest_text none = none
digest_text (some d) = some d.value

abbrev text_digest : Option Text → Option Digest
text_digest none = none
text_digest (some t) = some (record { value = t })

abbrev tier_number : TrustTier → ℕ
tier_number t0 = 0
tier_number t1 = 1
tier_number t2 = 2
tier_number t3 = 3
tier_number t4 = 4
tier_number t5 = 5

write_tier : TrustTier → Text → Text
write_tier t rest = tier_number t ∷ rest

abbrev number_tier : ℕ → TrustTier
number_tier zero = t0
number_tier (suc zero) = t1
number_tier (suc (suc zero)) = t2
number_tier (suc (suc (suc zero))) = t3
number_tier (suc (suc (suc (suc zero)))) = t4
number_tier _ = t5

take-write : (t rest : Text) → take (length t) (t ++ rest) ≡ t
take-write [] rest = refl
take-write (c ∷ t) rest = ap (λ x. c ∷ x) (take-write t rest)

drop-write : (t rest : Text) → drop (length t) (t ++ rest) ≡ rest
drop-write [] rest = refl
drop-write (c ∷ t) rest = drop-write t rest

module _ {A : Type 0} where
  read_text : Text → (Text → Text → Option A) → Option A
  read_text [] f = none
  read_text (n ∷ s) f = f (take n s) (drop n s)

  read_option : Text → (Option Text → Text → Option A) → Option A
  unfolding read_text
  read_option [] f = none
  read_option (zero ∷ s) f = f none s
  read_option (suc n ∷ s) f = read_text s (λ t rest. f (some t) rest)

  read_tier : Text → (TrustTier → Text → Option A) → Option A
  read_tier [] f = none
  read_tier (n ∷ s) f = f (number_tier n) s

  read-write_text :
      (t rest : Text) (f : Text → Text → Option A) → read_text (write_text t rest) f ≡ f t rest
  unfolding read_text write_text
  read-write_text t rest f = ap₂ f (take-write t rest) (drop-write t rest)

  read-write_option :
      (o : Option Text) (rest : Text) (f : Option Text → Text → Option A)
      → read_option (write_option o rest) f ≡ f o rest
  unfolding read_option write_option
  read-write_option none rest f = refl
  read-write_option (some t) rest f = read-write_text t rest (λ t rest. f (some t) rest)

  read-write_tier :
      (t : TrustTier) (rest : Text) (f : TrustTier → Text → Option A)
      → read_tier (write_tier t rest) f ≡ f t rest
  unfolding read_tier write_tier
  read-write_tier t0 rest f = refl
  read-write_tier t1 rest f = refl
  read-write_tier t2 rest f = refl
  read-write_tier t3 rest f = refl
  read-write_tier t4 rest f = refl
  read-write_tier t5 rest f = refl

abbrev write_record : EvidenceRecord → Text
write_record r =
    b'{'
    ∷ write_text r.id (
        write_text r.record_type (
          write_option r.run_id (
            write_option r.wall_time (
              write_text r.provider (
                write_text r.provider_version (
                  write_tier r.trust_tier
                    (write_text r.payload (write_option (digest_text r.previous) []))))))))

abbrev read_record : Text → Option EvidenceRecord
read_record [] = none
read_record (c ∷ s) = read_text s (λ id s. read_text s (λ kind s. read_option s (λ run s.
    read_option s (λ wall s. read_text s (λ provider s. read_text s (λ version s.
      read_tier s (λ tier s. read_text s (λ payload s. read_option s (λ previous s. some (record {
        id = id;
        record_type = kind;
        run_id = run;
        wall_time = wall;
        provider = provider;
        provider_version = version;
        trust_tier = tier;
        payload = payload;
        previous = text_digest previous;
      }))))))))))

same_digest : (d : Option Digest) → text_digest (digest_text d) ≡ d
same_digest none = refl
same_digest (some d) = refl

read-write_record : (r : EvidenceRecord) → read_record (write_record r) ≡ some r
read-write_record r =
    read-write_text r.id _ _
    ∙ (read-write_text r.record_type _ _
        ∙ (read-write_option r.run_id _ _
            ∙ (read-write_option r.wall_time _ _
                ∙ (read-write_text r.provider _ _
                    ∙ (read-write_text r.provider_version _ _
                        ∙ (read-write_tier r.trust_tier _ _
                            ∙ (read-write_text r.payload _ _
                                ∙ (read-write_option (digest_text r.previous) _ _
                                    ∙ ap (λ p. some (record r { previous = p }))
                                        (same_digest r.previous)))))))))

unfoldable pub json : JsonCodec
unfolding write_text write_option write_tier read_text read_option read_tier
json = record {
  sha256_hex = λ t. t;
  record_json = write_record;
  parse_record = read_record;
  envelope_json = λ e. e.event_id;
}

pub json-IsLine : (r : EvidenceRecord) → is_one_line (json.record_json r) ≡ true → IsLine json r
unfolding json is_blank all_blank contains list_beq starts_with
json-IsLine r h = record { round_trip = read-write_record r; not_blank = refl; one_line = h }

pub digest-json-injective : (a b : EvidenceRecord) → digest json a ≡ digest json b → a ≡ b
unfolding digest json
digest-json-injective a b h =
    let same =
      sym (hex-of_bytes (λ t. t) (write_record a))
      ∙ (ap hex h ∙ hex-of_bytes (λ t. t) (write_record b)) in
    some-injective a b (sym (read-write_record a) ∙ (ap read_record same ∙ read-write_record b))
