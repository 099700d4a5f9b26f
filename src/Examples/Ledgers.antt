-- ===== src/Examples/Ledgers.antt =====
-- crates/ovid-evidence at concrete inputs.
use ovid.Prelude.Order.{lookup}
use ovid.Core.States.{default}
use ovid.Evidence.Confidence.{proposal_only, cap_value}
use ovid.Evidence.Claim.{Claim, ClaimStore, resolve, put_claim, explanation, explain}
use ovid.Evidence.Claim.Explained.{IsComplete, FloatLaws, put_claim-explain, put_claim-proposals}
use ovid.Prelude.{
  ◌+◌, ◌-◌, ltb, if◌then◌else◌, false, Text, Floats, [], ◌∷◌, arith, list_beq, contains,
  starts_with, ◌≡◌, refl, true, none, some, List, lit, option_beq,
}
use ovid.Core.Digest.{of_bytes, digest_eq}
use ovid.Core.Trust.{t1, t5}
use ovid.Evidence.Record.{EvidenceRecord, digest}
use ovid.Evidence.Ledger.{
  File, get, EvidenceLedger, empty, ok, complete, written, lines, is_blank, all_blank, check_links,
  append, linked, open_ledger, iter_all, verify_chain,
}
use ovid.Evidence.Ledger.Chain.{verify_chain-tamper_evident}
use ovid.Evidence.Ledger.Appends.{IsLine, append-verify_chain, open_ledger-append}
use ovid.Evidence.Ledger.Lines.{is_ended}
use ovid.Examples.Codec.{json, json-IsLine, digest-json-injective}

abbrev evidence : EvidenceRecord
evidence = record {
  id = lit "evidence";
  record_type = lit "trial";
  run_id = none;
  wall_time = none;
  provider = lit "ovid";
  provider_version = lit "1";
  trust_tier = t1;
  payload = lit "x";
  previous = none;
}

abbrev first_ledger : EvidenceLedger
first_ledger = (append json complete empty none evidence).1

abbrev first_file : File
first_file = (append json complete empty none evidence).2

first-IsLine : IsLine json (linked empty evidence)
unfolding json lit
first-IsLine = json-IsLine (linked empty evidence) refl

first_appended :
    let (d, l, f) = append json complete empty none evidence in
    (verify_chain json l f ≡ ok l.head)
    × (is_ended f ≡ true)
    × (d ≡ ok (digest json (linked empty evidence)))
    × (l.head ≡ some (digest json (linked empty evidence)))
unfolding verify_chain option_beq
first_appended = append-verify_chain json empty none evidence first-IsLine refl refl

second-IsLine : IsLine json (linked first_ledger evidence)
unfolding json lit append digest of_bytes
second-IsLine = json-IsLine (linked first_ledger evidence) refl

append-verify_chain_example :
    let (d, l, f) = append json complete first_ledger first_file evidence in
    (verify_chain json l f ≡ ok l.head)
    × (is_ended f ≡ true)
    × (d ≡ ok (digest json (linked first_ledger evidence)))
    × (l.head ≡ some (digest json (linked first_ledger evidence)))
append-verify_chain_example =
    append-verify_chain json first_ledger first_file evidence second-IsLine first_appended.1
      first_appended.0

open_ledger-append_example :
    open_ledger json (append json complete empty none evidence).2
    ≡ ok (append json complete empty none evidence).1
unfolding open_ledger
open_ledger-append_example = open_ledger-append json empty none evidence first-IsLine refl refl

-- The same record with an empty line after it.
abbrev spaced_file : File
spaced_file = written first_file (10 ∷ [])

spaced_verifies : verify_chain json first_ledger spaced_file ≡ ok first_ledger.head
unfolding verify_chain iter_all append lines json lit digest of_bytes is_blank check_links
    option_beq list_beq digest_eq all_blank contains starts_with
spaced_verifies = refl

verify_chain-tamper_evident_example :
    (rs : List EvidenceRecord) × (iter_all json first_file ≡ ok rs)
    × (iter_all json spaced_file ≡ ok rs)
verify_chain-tamper_evident_example =
    verify_chain-tamper_evident json first_ledger first_ledger first_file spaced_file
      digest-json-injective refl first_appended.0 spaced_verifies

abbrev claim : List Text → Claim
claim supports = record {
  id = lit "claim:1";
  predicate = lit "requires";
  subject = lit "workload:test";
  object = lit "service:postgres";
  states = default;
  confidence = 0;
  supports = supports;
  contradicts = lit "evidence:9" ∷ [];
  normalizer = lit "test";
  normalizer_version = lit "0";
}

-- Hundredths, where a product is taken for a sum.
abbrev hundredths : Floats
hundredths = record {
  decimal = λ n k. n;
  add = λ a b. a + b;
  sub = λ a b. a - b;
  mul = λ a b. a + b;
  div = λ a b. a;
  max = λ a b. if ltb a b then b else a;
  min = λ a b. if ltb b a then b else a;
  ln = λ a. a;
  exp = λ a. a;
  of_usize = λ n. n;
  lt = ltb;
}

hundredths_laws : FloatLaws hundredths
hundredths_laws = record {
  min_second = λ a b. ground (arith);
  max_bound = λ a b c h k. ground (arith, h, k);
  half = refl;
}

abbrev proposals : EvidenceLedger
proposals = record {
  head = none;
  count = 1;
  index = (lit "evidence:1", record evidence { trust_tier = t5 }) ∷ [];
}

abbrev no_claims : ClaimStore
no_claims = record { claims = [] }

abbrev cited : Claim
cited = claim (lit "evidence:1" ∷ lit "evidence:2" ∷ [])

put_claim-explain_example :
    let (c, after) = put_claim hundredths proposals cited no_claims in
    (explain after proposals (lit "claim:1") ≡ some (explanation proposals c))
    × IsComplete proposals c (explanation proposals c)
put_claim-explain_example = put_claim-explain hundredths proposals cited no_claims tt

put_claim-proposals_example :
    hundredths.lt
      (cap_value hundredths proposal_only)
      (put_claim hundredths proposals cited no_claims).0.confidence
    ≡ false
unfolding resolve get lookup lit list_beq
put_claim-proposals_example =
    put_claim-proposals hundredths hundredths_laws proposals cited no_claims refl refl
