-- ===== src/Cli/Lab/Intents/Denied.antt =====
-- crates/ovid-gateway/src/proxy.rs with crates/ovid-cli/src/lab.rs: from the deny gateway to the
-- candidates of the trial.
use mathlib.Core.Option.{some-injective}
use ovid.Prelude.{
  ℕ, ◌^◌, ◌<◌, ◌≡◌, sym, ap, ◌∙◌, true, none, some, List, [], ◌∷◌, Text, lit, map, length, all, All,
  In, here, there, In-keep_if, true-all, text_eq,
}
use ovid.Domain.Dependency.{network}
use ovid.Application.Ports.{NetworkCandidate, TrialObservations}
use ovid.Gateway.Proxy.{deny, Connection, Handled, GatewayIntent, serve}
use ovid.Gateway.Proxy.Refusals.{serve-deny}
use ovid.Cli.Lab.Intents.{merge_intent_candidates}
use ovid.Cli.Lab.Intents.Counting.{is_refused}
use ovid.Cli.Lab.Intents.Named.{
  candidate_of, external, directed, summary, merge_intent_candidates-summary,
}

-- What the gateway wrote down of some connections.
abbrev pub recorded : List Handled → List GatewayIntent
recorded hs = map (λ h. h.intent) hs

refused-In :
    (hs : List Handled)
    → All (λ h. text_eq.beq h.intent.decision (lit "refused") ≡ true) hs
    → (i : GatewayIntent) → In i (recorded hs)
    → is_refused i ≡ true
refused-In [] a i m = elim m [ ]
refused-In (h ∷ hs) a i (here p) = ap is_refused p ∙ a.0
refused-In (h ∷ hs) a i (there m) = refused-In hs a.1 i m

summary-enforced :
    (identity : Text) (is : List GatewayIntent) {v : NetworkCandidate}
    → all is_refused is ≡ true
    → summary identity is ≡ some v
    → v.enforced_unavailable ≡ true
summary-enforced identity [] h q = absurd (cc)
summary-enforced identity (i ∷ is) h q =
    sym (ap (λ (c : NetworkCandidate). c.enforced_unavailable) (some-injective _ _ q)) ∙ h

-- Of fewer than 2^64 recorded connections, every destination that was no candidate and becomes one
-- through the deny gateway is unavailable by enforcement.
pub merge_intent_candidates-deny :
    (o : TrialObservations) (seq : ℕ) (cs : List Connection) (identity : Text)
    {v : NetworkCandidate}
    → length (recorded (serve deny seq cs)) < 2 ^ 64
    → candidate_of (network identity) o.network ≡ none
    → candidate_of
        (network identity)
        (merge_intent_candidates o (recorded (serve deny seq cs))).network
      ≡ some v
    → v.enforced_unavailable ≡ true
merge_intent_candidates-deny o seq cs identity b h q =
    let intents = recorded (serve deny seq cs) in
    summary-enforced identity (directed identity intents)
      (true-all is_refused (directed identity intents) (λ i m.
        refused-In (serve deny seq cs) (serve-deny seq cs) i
          (In-keep_if _ intents (In-keep_if _ (external intents) m).0).0))
      (sym (merge_intent_candidates-summary o intents identity b h) ∙ q)
