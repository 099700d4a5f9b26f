-- ===== src/Cli/Lab/Intents.antt =====
-- crates/ovid-cli/src/lab.rs: folding what the gateway recorded into the observations of a trial.
-- Counters are `u64`.
mod Counting
pub mod Named
pub mod Denied
use ovid.Prelude.{
  ℕ, ◌+◌, ◌%◌, ◌^◌, Bool, true, false, not, ◌&&◌, ◌||◌, List, [], ◌∷◌, ◌++◌, Text, lit, starts_with,
  text_eq, nat_beq, ltb, leb, if◌then◌else◌,
}
use ovid.Prelude.Order.{upsert, text_order}
use ovid.Domain.Dependency.{DependencyKey, network, key_eq}
use ovid.Application.Ports.{NetworkCandidate, EgressIntent, TrialObservations}
use ovid.Gateway.Proxy.{GatewayIntent, endpoint}

unfoldable pub is_loopback_host : Text → Bool
is_loopback_host host =
    text_eq.beq host (lit "localhost")
    || text_eq.beq host (lit "::1")
    || starts_with (lit "127.") host

-- The four counters of an identity.
pub record Tally : Type 0 where
  pub attempts : ℕ
  pub failures : ℕ
  pub refused : ℕ
  pub forwarded : ℕ

abbrev pub no_tally : Tally
no_tally = record { attempts = 0; failures = 0; refused = 0; forwarded = 0 }

abbrev pub increment : ℕ → ℕ
increment n = (n + 1) % 2 ^ 64

-- Where an entry of the map is counted up.
unfoldable pub count_intent : GatewayIntent → Tally → Tally
count_intent intent t =
    if text_eq.beq intent.decision (lit "forwarded")
    then record t { attempts = increment t.attempts; forwarded = increment t.forwarded }
    else if text_eq.beq intent.decision (lit "refused")
    then record t {
      attempts = increment t.attempts;
      failures = increment t.failures;
      refused = increment t.refused;
    }
    else record t { attempts = increment t.attempts; failures = increment t.failures }

unfoldable pub egress_intent : GatewayIntent → EgressIntent
egress_intent intent = record {
  host = intent.host;
  port = intent.port;
  scheme = intent.scheme;
  method = intent.method;
  path = intent.path;
  decision = intent.decision;
}

-- What the first loop keeps: the intents pushed and the counters by identity.
pub record Tallies : Type 0 where
  pub egress_intents : List EgressIntent
  pub by_identity : List (Text × Tally)

abbrev pub identity_of : GatewayIntent → Text
identity_of intent = endpoint intent.host intent.port

-- One round of the first loop.
unfoldable pub tally_intent : GatewayIntent → Tallies → Tallies
tally_intent intent s = if is_loopback_host intent.host then s else record {
  egress_intents = s.egress_intents ++ (egress_intent intent ∷ []);
  by_identity =
      upsert (identity_of intent) (count_intent intent) (count_intent intent no_tally)
        s.by_identity;
}

unfoldable pub tally_intents : List GatewayIntent → Tallies → Tallies
tally_intents [] s = s
tally_intents (intent ∷ intents) s = tally_intents intents (tally_intent intent s)

unfoldable pub is_enforced : Tally → Bool
is_enforced t = ltb 0 t.attempts && nat_beq t.forwarded 0 && nat_beq t.refused t.attempts

-- An existing candidate takes the counters in.
unfoldable pub raise_candidate : Tally → NetworkCandidate → NetworkCandidate
raise_candidate t existing =
    let attempts = (existing.attempts + t.attempts) % 2 ^ 64 in
    let failures = (existing.failures + t.failures) % 2 ^ 64 in
    record existing {
      attempts = attempts;
      failures = failures;
      all_failed = leb attempts failures;
      enforced_unavailable = existing.enforced_unavailable && is_enforced t;
    }

unfoldable pub new_candidate : Text → Tally → NetworkCandidate
new_candidate identity t = record {
  key = network identity;
  externally_controlled = true;
  all_failed = leb t.attempts t.failures;
  enforced_unavailable = is_enforced t;
  attempts = t.attempts;
  failures = t.failures;
}

-- One round of the second loop: the first candidate of the key, or a new one at the end.
unfoldable pub add_tally : Text → Tally → List NetworkCandidate → List NetworkCandidate
add_tally identity t [] = new_candidate identity t ∷ []
add_tally identity t (c ∷ cs) =
    let rest = add_tally identity t cs in
    if key_eq.beq c.key (network identity) then raise_candidate t c ∷ cs else c ∷ rest

unfoldable pub add_tallies : List (Text × Tally) → List NetworkCandidate → List NetworkCandidate
add_tallies [] cs = cs
add_tallies ((identity, t) ∷ m) cs = add_tallies m (add_tally identity t cs)

unfoldable pub merge_intent_candidates : TrialObservations → List GatewayIntent → TrialObservations
merge_intent_candidates o intents =
    let s =
      tally_intents intents (record { egress_intents = o.egress_intents; by_identity = [] }) in
    record o { egress_intents = s.egress_intents; network = add_tallies s.by_identity o.network }
