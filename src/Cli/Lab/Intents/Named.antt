-- ===== src/Cli/Lab/Intents/Named.antt =====
-- crates/ovid-cli/src/lab.rs: what the candidate of a destination says of the intents to it.
use ovid.Prelude.{
  ◌^◌, ◌<◌, ◌≤◌, ◌≡◌, refl, sym, ap, subst, ◌∙◌, inl, inr, Bool, true, false, false≢true, not,
  Option, none, some, List, [], ◌∷◌, Text, length, is_some, all, find, keep_if, text_eq, beq-false,
  Bool-cases, arith, if◌then◌else◌,
}
use ovid.Prelude.Order.{
  upsert, lookup, lookup-Below, Below, Ascending, folded_all, upsert_all, lookup-upsert_all,
  upsert_all-Ascending, text_order,
}
use ovid.Domain.Dependency.{DependencyKey, network, key_eq}
use ovid.Application.Ports.{NetworkCandidate, TrialObservations}
use ovid.Gateway.Proxy.{GatewayIntent}
use ovid.Cli.Lab.Intents.{
  Tally, Tallies, no_tally, count_intent, is_loopback_host, identity_of, tally_intent,
  tally_intents, raise_candidate, new_candidate, add_tally, add_tallies, merge_intent_candidates,
}
use ovid.Cli.Lab.Intents.Counting.{folded-Sums, is_refused, is_forwarded, how_many}

abbrev pub candidate_of : DependencyKey → List NetworkCandidate → Option NetworkCandidate
candidate_of k cs = find (λ c. key_eq.beq c.key k) cs

abbrev pub external : List GatewayIntent → List GatewayIntent
external intents = keep_if (λ i. not (is_loopback_host i.host)) intents

-- The intents to a destination that is no loopback host.
abbrev pub directed : Text → List GatewayIntent → List GatewayIntent
directed identity intents = keep_if (λ i. text_eq.beq (identity_of i) identity) (external intents)

tally_all : List (Text × Tally) → List GatewayIntent → List (Text × Tally)
tally_all m is = upsert_all identity_of (λ i. count_intent i no_tally) count_intent m is

tally_intents-upsert_all :
    (is : List GatewayIntent) (s : Tallies)
    → (tally_intents is s).by_identity ≡ tally_all s.by_identity (external is)
unfolding tally_intents tally_intent tally_all
tally_intents-upsert_all [] s = refl
tally_intents-upsert_all (i ∷ is) s =
    by_test (is_loopback_host i.host) _ refl (λ r. tally_intents-upsert_all is r)
  where
    by_test :
        (b : Bool) (next : Tallies)
        → next.by_identity
          ≡ upsert (identity_of i) (count_intent i) (count_intent i no_tally) s.by_identity
        → ((r : Tallies) → (tally_intents is r).by_identity ≡ tally_all r.by_identity (external is))
        → (tally_intents is (if b then s else next)).by_identity
          ≡ tally_all s.by_identity (if not b then i ∷ external is else external is)
    by_test true next q rest = rest s
    by_test false next q rest = rest next ∙ ap (λ m. tally_all m (external is)) q

add_tally-same :
    (identity : Text) (t : Tally) (cs : List NetworkCandidate)
    → candidate_of (network identity) cs ≡ none
    → candidate_of (network identity) (add_tally identity t cs) ≡ some (new_candidate identity t)
unfolding add_tally new_candidate
add_tally-same identity t [] h =
    rw ((key_eq.beq_iff (network identity) (network identity)).1 refl) refl
add_tally-same identity t (c ∷ cs) h = elim (Bool-cases (key_eq.beq c.key (network identity))) [
  | inl b ↦ absurd (false≢true (sym (ap is_some (rw b at h))))
  | inr b ↦ rw b (rw b (add_tally-same identity t cs (rw b at h)))
]

add_tally-other :
    (identity : Text) (t : Tally) (k : DependencyKey) (cs : List NetworkCandidate)
    → key_eq.beq (network identity) k ≡ false
    → candidate_of k (add_tally identity t cs) ≡ candidate_of k cs
unfolding add_tally new_candidate raise_candidate
add_tally-other identity t k [] n = rw n refl
add_tally-other identity t k (c ∷ cs) n = elim (Bool-cases (key_eq.beq c.key (network identity))) [
  | inl b ↦
      rw b (rw (ap (λ j. key_eq.beq j k) ((key_eq.beq_iff c.key (network identity)).0 b) ∙ n) refl)
  | inr b ↦
      rw b (ap (λ o. if key_eq.beq c.key k then some c else o) (add_tally-other identity t k cs n))
]

network-other : (j i : Text) → text_eq.beq j i ≡ false → key_eq.beq (network j) (network i) ≡ false
unfolding network
network-other j i f = beq-false key_eq (network j) (network i) (λ p.
    false≢true (sym f ∙ (text_eq.beq_iff j i).1 (ap (λ (k : DependencyKey). k.logical_identity) p)))

add_tallies-absent :
    (identity : Text) (m : List (Text × Tally)) (cs : List NetworkCandidate)
    → lookup identity m ≡ none
    → candidate_of (network identity) (add_tallies m cs) ≡ candidate_of (network identity) cs
unfolding add_tallies lookup
add_tallies-absent identity [] cs h = refl
add_tallies-absent identity ((j, t) ∷ m) cs h = elim (Bool-cases (text_eq.beq j identity)) [
  | inl b ↦ absurd (false≢true (sym (ap is_some (rw b at h))))
  | inr b ↦
      add_tallies-absent identity m (add_tally j t cs) (rw b at h)
      ∙ add_tally-other j t (network identity) cs (network-other j identity b)
]

-- What `add_tallies` shows of an identity that has no candidate yet.
shown_of : Text → Option Tally → Option NetworkCandidate
shown_of identity none = none
shown_of identity (some t) = some (new_candidate identity t)

add_tallies-shown :
    (identity : Text) (m : List (Text × Tally)) (cs : List NetworkCandidate)
    → Ascending m
    → candidate_of (network identity) cs ≡ none
    → candidate_of (network identity) (add_tallies m cs) ≡ shown_of identity (lookup identity m)
unfolding add_tallies lookup shown_of
add_tallies-shown identity [] cs a h = h
add_tallies-shown identity ((j, t) ∷ m) cs a h = elim (Bool-cases (text_eq.beq j identity)) [
  | inl b ↦ rw b (own ((text_eq.beq_iff j identity).0 b))
  | inr b ↦ rw b (
      add_tallies-shown identity m (add_tally j t cs) a.1
        (add_tally-other j t (network identity) cs (network-other j identity b) ∙ h))
]
  where
    own :
        j ≡ identity
        → candidate_of (network identity) (add_tallies m (add_tally j t cs))
          ≡ some (new_candidate identity t)
    own p =
        let same = ap (λ k. candidate_of (network identity) (add_tallies m (add_tally k t cs))) p in
        let below = subst (λ k. Below k m) p a.0 in
        same
        ∙ (add_tallies-absent identity m (add_tally identity t cs) (lookup-Below identity m below)
            ∙ add_tally-same identity t cs h)

-- The candidate that a destination has after some intents, by an independent description.
abbrev pub summary : Text → List GatewayIntent → Option NetworkCandidate
summary identity [] = none
summary identity (i ∷ is) = some (record {
  key = network identity;
  externally_controlled = true;
  all_failed = all (λ j. not (is_forwarded j)) (i ∷ is);
  enforced_unavailable = all is_refused (i ∷ is);
  attempts = length (i ∷ is);
  failures = how_many (λ j. not (is_forwarded j)) (i ∷ is);
})

summed :
    (identity : Text) (is : List GatewayIntent)
    → length is < 2 ^ 64
    → shown_of identity (folded_all (λ i. count_intent i no_tally) count_intent none is)
      ≡ summary identity is
unfolding shown_of new_candidate
summed identity [] b = refl
summed identity (i ∷ is) b =
    let s = folded-Sums i is b in
    ap some (rw (s.all_failed, s.attempts, s.failures, s.enforced) refl)

length-keep_if : {A : Type 0} (p : A → Bool) (xs : List A) → length (keep_if p xs) ≤ length xs
length-keep_if p [] = omega arith
length-keep_if p (x ∷ xs) = ground (arith, length-keep_if p xs)

-- Of fewer than 2^64 intents, a destination that was no candidate becomes one exactly if an intent
-- that is no loopback one names it: unavailable by enforcement only if every such intent was
-- refused, failed only if none was forwarded, with their numbers.
pub merge_intent_candidates-summary :
    (o : TrialObservations) (intents : List GatewayIntent) (identity : Text)
    → length intents < 2 ^ 64
    → candidate_of (network identity) o.network ≡ none
    → candidate_of (network identity) (merge_intent_candidates o intents).network
      ≡ summary identity (directed identity intents)
unfolding merge_intent_candidates tally_all lookup
merge_intent_candidates-summary o intents identity b h =
    let start : Tallies = record { egress_intents = o.egress_intents; by_identity = [] } in
    let tallied = tally_intents-upsert_all intents start in
    let m = tally_all [] (external intents) in
    ap (λ n. candidate_of (network identity) (add_tallies n o.network)) tallied
    ∙ (add_tallies-shown identity m o.network
          (upsert_all-Ascending identity_of (λ i. count_intent i no_tally) count_intent []
            (external intents) tt)
          h
        ∙ (ap (shown_of identity) (
              lookup-upsert_all identity_of (λ i. count_intent i no_tally) count_intent identity []
                (external intents) tt)
            ∙ summed identity (directed identity intents) (
                omega (
                  arith,
                  length-keep_if (λ i. text_eq.beq (identity_of i) identity) (external intents),
                  length-keep_if (λ i. not (is_loopback_host i.host)) intents,
                ))))
