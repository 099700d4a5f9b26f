-- ===== src/Gateway/Proxy/Refusals.antt =====
-- crates/ovid-gateway/src/proxy.rs: the decisions that the policy takes.
use ovid.Prelude.{
  ℕ, ◌+◌, ◌%◌, ◌^◌, ◌≡◌, refl, sym, Bool, true, false, Option, none, some, List, [], ◌∷◌, Text, lit,
  All, All-imp, arith, contains, list_beq, ◌>>=◌, text_eq, if◌then◌else◌,
}
use ovid.Gateway.Proxy.{
  GatewayPolicy, deny, forward_except, endpoint, ProxyRequest, Handled, Connection, refuses,
  intent_of, handle_request, handle_connection, parse_request, numbered, serve,
}

-- The recorded decision is a refusal where the policy refuses the destination.
record IsHonest (policy : GatewayPolicy) (h : Handled) : Type 0 where
  refused :
      text_eq.beq h.intent.decision (lit "refused") ≡ refuses policy h.intent.host h.intent.port

-- By the answer of the policy and whether the destination is reached.
decided-IsHonest :
    (policy : GatewayPolicy) (r : ProxyRequest) (answer reaches : Bool)
    → refuses policy r.host r.port ≡ answer
    → IsHonest policy (
        if answer
        then record { intent = intent_of r (lit "refused") }
        else if reaches
        then record { intent = intent_of r (lit "forwarded") }
        else record { intent = intent_of r (lit "forward-failed") })
unfolding intent_of lit list_beq
decided-IsHonest policy r true reaches e = record { refused = sym e }
decided-IsHonest policy r false true e = record { refused = sym e }
decided-IsHonest policy r false false e = record { refused = sym e }

handle_request-IsHonest :
    (policy : GatewayPolicy) (reaches : Bool) (r : ProxyRequest)
    → IsHonest policy (handle_request policy reaches r)
unfolding handle_request
handle_request-IsHonest policy reaches r =
    decided-IsHonest policy r (refuses policy r.host r.port) reaches refl

abbrev AreHonest : GatewayPolicy → Option Handled → Type 0
AreHonest policy none = Unit
AreHonest policy (some h) = IsHonest policy h

read-AreHonest :
    (policy : GatewayPolicy) (reaches : Bool) (o : Option ProxyRequest)
    → AreHonest policy (o >>= λ r. some (handle_request policy reaches r))
read-AreHonest policy reaches none = tt
read-AreHonest policy reaches (some r) = handle_request-IsHonest policy reaches r

serve-IsHonest :
    (policy : GatewayPolicy) (seq : ℕ) (cs : List Connection)
    → All (IsHonest policy) (serve policy seq cs)
unfolding serve handle_connection
serve-IsHonest policy seq [] = tt
serve-IsHonest policy seq (c ∷ cs) =
    recorded (handle_connection policy c)
      (read-AreHonest policy c.reaches (parse_request c.first_line))
      (λ n. serve-IsHonest policy n cs)
  where
    recorded :
        (o : Option Handled)
        → AreHonest policy o
        → ((n : ℕ) → All (IsHonest policy) (serve policy n cs))
        → All (IsHonest policy) (elim o [
          | none ↦ serve policy seq cs
          | some h ↦ numbered seq h ∷ serve policy ((seq + 1) % 2 ^ 64) cs
        ])
    recorded none h rest = rest seq
    recorded (some x) h rest = (record { refused = h.refused }, rest ((seq + 1) % 2 ^ 64))

-- Under the deny policy every recorded decision is a refusal.
pub serve-deny :
    (seq : ℕ) (cs : List Connection)
    → All (λ h. text_eq.beq h.intent.decision (lit "refused") ≡ true) (serve deny seq cs)
unfolding refuses
serve-deny seq cs =
    All-imp {P = IsHonest deny} (serve deny seq cs) (λ h honest. honest.refused)
      (serve-IsHonest deny seq cs)

-- The destinations that are blocked for a host and one of its ports are all the ports of the host.
pub refuses-blocked_host :
    (host : Text) (port other : ℕ)
    → refuses (forward_except (endpoint host port ∷ host ∷ [])) host other ≡ true
unfolding refuses contains
refuses-blocked_host host port other = ground (arith, text_eq.beq_iff host host)
