-- ===== src/Gateway/Analysis.antt =====
-- crates/ovid-gateway/src/analysis.rs: external dependencies from socket and DNS events.
pub mod Dials
pub mod Accounts
use ovid.Prelude.{
  ℕ, ◌+◌, ◌%◌, ◌^◌, Bool, true, false, not, ◌&&◌, ◌||◌, Option, none, some, List, [], ◌∷◌, ◌++◌,
  Text, lit, show, ltb, nat_beq, contains, map, starts_with, unwrap_or, text_eq, nat_eq,
  if◌then◌else◌,
}
use ovid.Prelude.Order.{upsert, lookup, values, pair_eq, pair_order, text_order, nat_order}
use ovid.Core.Event.{
  BoundaryEvent, EventEnvelope, dns_query, socket_connect, socket_listening, unix_socket_connected,
  is_failure,
}
use ovid.Core.Id.{OvidId}
use ovid.Packs.Schema.{Pack, ProtocolPack}
use ovid.Packs.Registry.{PackRegistry, classify_protocol}

pub record ExternalObservation : Type 0 where
  pub address : Text
  pub port : ℕ
  pub dns_name : Option Text
  pub endpoints : List Text
  pub protocol : Option Text
  pub service_candidates : List Text
  pub attempts : ℕ
  pub failures : ℕ
  pub outcomes : List Text
  pub evidence : List OvidId

unfoldable pub all_failed : ExternalObservation → Bool
all_failed o = ltb 0 o.attempts && nat_beq o.failures o.attempts

unfoldable pub identity : ExternalObservation → Text
identity o = unwrap_or o.dns_name o.address ++ (lit ":" ++ show o.port)

unfoldable pub externally_controlled : ExternalObservation → Bool
externally_controlled o =
    not (starts_with (lit "127.") o.address || text_eq.beq o.address (lit "::1"))

pub record Listener : Type 0 where
  pub address : Text
  pub port : ℕ
  pub evidence : List OvidId

pub record NetworkAnalysis : Type 0 where
  pub external : List ExternalObservation
  pub listeners : List Listener
  pub unix_sockets : List Text
  pub dns_servers : List Text
  pub dns_queries : List (Text × List Text)

-- `if !xs.contains(x) { xs.push(x.clone()) }`
unfoldable pub push_new : Text → List Text → List Text
push_new x xs = if contains xs x then xs else xs ++ (x ∷ [])

pub push_new_option : Option Text → List Text → List Text
unfolding push_new
push_new_option none xs = xs
push_new_option (some x) xs = push_new x xs

-- The variables of the first loop.
pub record Names : Type 0 where
  pub names : List (Text × Text)
  pub dns_servers : List Text
  pub dns_queries : List (Text × List Text)
  pub dns_evidence : List (Text × List OvidId)

pub add_name : Option Text → Text → List (Text × Text) → List (Text × Text)
add_name none name names = names
add_name (some answer) name names = upsert answer (λ n. n) name names

unfoldable pub harvest : Names → OvidId → BoundaryEvent → Names
unfolding add_name push_new_option
harvest s id (dns_query name answer decision server) = record {
  names = add_name answer name s.names;
  dns_servers = push_new_option server s.dns_servers;
  dns_queries = upsert name (push_new_option answer) (push_new_option answer []) s.dns_queries;
  dns_evidence = upsert name (λ ids. ids ++ (id ∷ [])) (id ∷ []) s.dns_evidence;
}
harvest s id (socket_connect address port original result hint) =
    if nat_beq port 53 then record s { dns_servers = push_new address s.dns_servers } else s
harvest s id _ = s

unfoldable pub harvest_all : Names → List EventEnvelope → Names
unfolding harvest
harvest_all s [] = s
harvest_all s (e ∷ es) = harvest_all (harvest s e.event_id e.event) es

-- A connect that the second loop groups, with the name that is known for it.
pub record Dial : Type 0 where
  pub address : Text
  pub port : ℕ
  pub dns_name : Option Text
  pub result : Option Text
  pub failed : Bool
  pub event_id : OvidId

abbrev pub Key : Type 0
Key = Text × ℕ

abbrev pub dial_key : Dial → Key
dial_key d = (unwrap_or d.dns_name d.address, d.port)

-- What `or_insert_with` makes.
unfoldable pub fresh : Dial → ExternalObservation
fresh d = record {
  address = d.address;
  port = d.port;
  dns_name = d.dns_name;
  endpoints = [];
  protocol = none;
  service_candidates = [];
  attempts = 0;
  failures = 0;
  outcomes = [];
  evidence = [];
}

-- What the loop does to the entry.
unfoldable pub attempt : Dial → ExternalObservation → ExternalObservation
unfolding push_new push_new_option
attempt d o = record o {
  endpoints = push_new d.address o.endpoints;
  attempts = (o.attempts + 1) % 2 ^ 64;
  failures = if d.failed then (o.failures + 1) % 2 ^ 64 else o.failures;
  outcomes = push_new_option d.result o.outcomes;
  evidence = o.evidence ++ (d.event_id ∷ []);
}

-- The variables of the second loop.
pub record Traffic : Type 0 where
  pub destinations : List (Key × ExternalObservation)
  pub listeners : List (Key × Listener)
  pub unix_sockets : List Text

-- `original_dns_name.clone().or_else(|| names.get(address).cloned())`
pub known_name : List (Text × Text) → Option Text → Text → Option Text
known_name names none address = lookup address names
known_name names (some name) address = some name

unfoldable pub dial_of :
    List (Text × Text)
    → OvidId
    → (address : Text) (port : ℕ) (original_dns_name result hint : Option Text) → Dial
unfolding known_name
dial_of names id address port original result hint = record {
  address = address;
  port = port;
  dns_name = known_name names original address;
  result = result;
  failed = is_failure (socket_connect address port original result hint);
  event_id = id;
}

-- Resolver traffic and route probes are skipped.
abbrev pub is_skipped : ℕ → Bool
is_skipped port = nat_beq port 53 || nat_beq port 0

pub listen_on : OvidId → Listener → Listener
listen_on id l = record l { evidence = l.evidence ++ (id ∷ []) }

unfoldable pub observe : List (Text × Text) → Traffic → OvidId → BoundaryEvent → Traffic
unfolding attempt fresh dial_of listen_on push_new
observe names s id (socket_connect address port original result hint) =
    let d = dial_of names id address port original result hint in
    if is_skipped port then s else record s {
      destinations = upsert (dial_key d) (attempt d) (attempt d (fresh d)) s.destinations;
    }
observe names s id (socket_listening address port) = record s {
  listeners =
      upsert (address, port) (listen_on id)
        (listen_on id (record { address = address; port = port; evidence = [] })) s.listeners;
}
observe names s id (unix_socket_connected path result) = record s {
  unix_sockets = push_new path s.unix_sockets;
}
observe names s id _ = s

unfoldable pub observe_all : List (Text × Text) → Traffic → List EventEnvelope → Traffic
unfolding observe
observe_all names s [] = s
observe_all names s (e ∷ es) = observe_all names (observe names s e.event_id e.event) es

-- The last loop: the protocol by the port, and the evidence of the name.
unfoldable pub with_protocol :
    Option (Pack × ProtocolPack) → ExternalObservation → ExternalObservation
with_protocol none o = o
with_protocol (some (pack, p)) o = record o {
  protocol = some p.system;
  service_candidates = p.service_candidates;
}

unfoldable pub push_all_new : List OvidId → List OvidId → List OvidId
unfolding push_new
push_all_new [] ids = ids
push_all_new (id ∷ more) ids = push_all_new more (push_new id ids)

pub name_evidence : List (Text × List OvidId) → Option Text → List OvidId
name_evidence dns_evidence none = []
name_evidence dns_evidence (some name) = unwrap_or (lookup name dns_evidence) []

unfoldable pub completed :
    PackRegistry → List (Text × List OvidId) → ExternalObservation → ExternalObservation
unfolding with_protocol push_all_new name_evidence
completed registry dns_evidence o =
    let p = with_protocol (classify_protocol registry o.port none) o in
    record p { evidence = push_all_new (name_evidence dns_evidence p.dns_name) p.evidence }

abbrev pub no_traffic : Traffic
no_traffic = record { destinations = []; listeners = []; unix_sockets = [] }

abbrev pub given_names : List (Text × Text) → Names
given_names dns_names = record {
  names = dns_names;
  dns_servers = [];
  dns_queries = [];
  dns_evidence = [];
}

unfoldable pub analyze_network :
    List EventEnvelope → PackRegistry → List (Text × Text) → NetworkAnalysis
analyze_network events registry dns_names =
    let n = harvest_all (given_names dns_names) events in
    let t = observe_all n.names no_traffic events in
    record {
      external = map (completed registry n.dns_evidence) (values t.destinations);
      listeners = values t.listeners;
      unix_sockets = t.unix_sockets;
      dns_servers = n.dns_servers;
      dns_queries = n.dns_queries;
    }
