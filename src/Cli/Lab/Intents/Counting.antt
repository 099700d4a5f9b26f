-- ===== src/Cli/Lab/Intents/Counting.antt =====
-- crates/ovid-cli/src/lab.rs: what the counters of an identity come to.
use ovid.Prelude.{
  ℕ, ◌+◌, ◌^◌, ◌<◌, ◌≤◌, ◌≡◌, refl, Bool, true, false, not, List, [], ◌∷◌, lit, length, all,
  keep_if, text_eq, leb, list_beq, arith,
}
use ovid.Prelude.Order.{folded, text_order}
use ovid.Gateway.Proxy.{GatewayIntent}
use ovid.Cli.Lab.Intents.{Tally, no_tally, count_intent, is_enforced}

abbrev pub is_refused : GatewayIntent → Bool
is_refused i = text_eq.beq i.decision (lit "refused")

abbrev pub is_forwarded : GatewayIntent → Bool
is_forwarded i = text_eq.beq i.decision (lit "forwarded")

-- How many of the intents pass a test.
abbrev pub how_many : (GatewayIntent → Bool) → List GatewayIntent → ℕ
how_many p is = length (keep_if p is)

-- The counters after some intents.
record Counted (t s : Tally) (is : List GatewayIntent) : Type 0 where
  attempts : s.attempts ≡ t.attempts + length is
  failures : s.failures ≡ t.failures + how_many (λ i. not (is_forwarded i)) is
  refused : s.refused ≡ t.refused + how_many is_refused is
  forwarded : s.forwarded ≡ t.forwarded + how_many is_forwarded is

-- Each counter is at most the number of attempts.
record Small (t : Tally) : Type 0 where
  failures : t.failures ≤ t.attempts
  refused : t.refused ≤ t.attempts
  forwarded : t.forwarded ≤ t.attempts

not_both : (i : GatewayIntent) → is_forwarded i ≡ true → is_refused i ≡ false
unfolding lit list_beq
not_both i f = rw ((text_eq.beq_iff i.decision (lit "forwarded")).0 f) refl

step-Counted :
    (i : GatewayIntent) (t : Tally)
    → t.attempts + 1 < 2 ^ 64
    → Small t
    → Counted t (count_intent i t) (i ∷ [])
unfolding count_intent
step-Counted i t b h = record {
  attempts = ground (arith, h.failures, h.refused, h.forwarded);
  failures = ground (arith, h.failures, h.refused, h.forwarded);
  refused = ground (arith, h.failures, h.refused, h.forwarded, not_both i);
  forwarded = ground (arith, h.failures, h.refused, h.forwarded, not_both i);
}

step-Small :
    (i : GatewayIntent) (t : Tally) → t.attempts + 1 < 2 ^ 64 → Small t → Small (count_intent i t)
unfolding count_intent
step-Small i t b h = record {
  failures = ground (arith, h.failures, h.refused, h.forwarded);
  refused = ground (arith, h.failures, h.refused, h.forwarded);
  forwarded = ground (arith, h.failures, h.refused, h.forwarded);
}

folded-Counted :
    (t : Tally) (is : List GatewayIntent)
    → t.attempts + length is < 2 ^ 64
    → Small t
    → Counted t (folded count_intent t is) is
folded-Counted t [] b h = record {
  attempts = ground (arith);
  failures = ground (arith);
  refused = ground (arith);
  forwarded = ground (arith);
}
folded-Counted t (i ∷ is) b h =
    let one = step-Counted i t (omega arith) h in
    let rest =
      folded-Counted (count_intent i t) is (omega (arith, one.attempts))
        (step-Small i t (omega arith) h) in
    record {
      attempts = ground (arith, one.attempts, rest.attempts);
      failures = ground (arith, one.failures, rest.failures);
      refused = ground (arith, one.refused, rest.refused);
      forwarded = ground (arith, one.forwarded, rest.forwarded);
    }

how_many-le : (p : GatewayIntent → Bool) (is : List GatewayIntent) → how_many p is ≤ length is
how_many-le p [] = omega arith
how_many-le p (i ∷ is) = ground (arith, how_many-le p is)

all-how_many :
    (p : GatewayIntent → Bool) (is : List GatewayIntent)
    → leb (length is) (how_many p is) ≡ all p is
all-how_many p [] = refl
all-how_many p (i ∷ is) = ground (arith, all-how_many p is, how_many-le p is)

refused-unforwarded :
    (is : List GatewayIntent) → how_many is_forwarded is + how_many is_refused is ≤ length is
refused-unforwarded [] = omega arith
refused-unforwarded (i ∷ is) = ground (arith, refused-unforwarded is, not_both i)

-- The counters of intents, the first of them included.
pub record Sums (s : Tally) (is : List GatewayIntent) : Type 0 where
  pub attempts : s.attempts ≡ length is
  pub failures : s.failures ≡ how_many (λ i. not (is_forwarded i)) is
  pub enforced : is_enforced s ≡ all is_refused is
  pub all_failed : leb s.attempts s.failures ≡ all (λ i. not (is_forwarded i)) is

pub folded-Sums :
    (i : GatewayIntent) (is : List GatewayIntent)
    → length (i ∷ is) < 2 ^ 64
    → Sums (folded count_intent (count_intent i no_tally) is) (i ∷ is)
unfolding is_enforced
folded-Sums i is b =
    let c =
      folded-Counted no_tally (i ∷ is) (omega arith)
        (record { failures = omega arith; refused = omega arith; forwarded = omega arith }) in
    record {
      attempts = omega (arith, c.attempts);
      failures = omega (arith, c.failures);
      enforced = ground (
        arith,
        c.attempts,
        c.refused,
        c.forwarded,
        all-how_many is_refused (i ∷ is),
        refused-unforwarded (i ∷ is),
        how_many-le is_refused (i ∷ is),
      );
      all_failed =
          ground (arith, c.attempts, c.failures, all-how_many (λ j. not (is_forwarded j)) (i ∷ is));
    }
