-- ===== src/Examples/Dialled.antt =====
-- crates/ovid-gateway and crates/ovid-packs/src/registry.rs at concrete inputs.
use ovid.Prelude.{ℕ, none, some, List, [], ◌∷◌, Text, lit}
use ovid.Core.Event.{EventEnvelope, socket_connect, dns_query}
use ovid.Packs.Schema.{Pack, declared, protocol_pack}
use ovid.Packs.Registry.{PackRegistry, classify_protocol, protocol_packs}
use ovid.Packs.Registry.Classified.{IsBestOf, classify_protocol-IsBestOf}
use ovid.Gateway.Analysis.{analyze_network}
use ovid.Gateway.Analysis.Accounts.{Accounts, dials, analyze_network-Accounts}
use ovid.Examples.Events.{envelope}

abbrev pack : Text → List ℕ → Pack
pack name ports = record {
  api_version = lit "ovid.dev/pack/v1alpha1";
  metadata = record {
    name = name;
    version = lit "1";
    license = none;
    digest = none;
    signer = none;
  };
  permissions = record { network = declared; host_files = declared; guest_capabilities = [] };
  body = protocol_pack (record {
    matcher = record { ports = ports; first_bytes_ascii_prefix_any = []; alpn_any = [] };
    system = name;
    service_candidates = name ∷ [];
  });
}

abbrev pub registry : PackRegistry
registry = record { packs = pack (lit "redis") (6379 ∷ []) ∷ pack (lit "amqp") (5672 ∷ []) ∷ [] }

classify_protocol-IsBestOf_example :
    IsBestOf 5672 none (protocol_packs registry) (classify_protocol registry 5672 none)
classify_protocol-IsBestOf_example = classify_protocol-IsBestOf registry 5672 none

-- The name of an address is learnt after the first connect to it.
abbrev traffic : List EventEnvelope
traffic =
    envelope (socket_connect (lit "10.0.0.7") 5672 none (some (lit "ECONNREFUSED")) none)
    ∷ envelope (dns_query (lit "mq.internal") (some (lit "10.0.0.7")) none none)
    ∷ envelope (socket_connect (lit "10.0.0.7") 5672 none (some (lit "success")) none)
    ∷ []

analyze_network-Accounts_example :
    Accounts (analyze_network traffic registry []).external (dials traffic [])
analyze_network-Accounts_example = analyze_network-Accounts traffic registry []
