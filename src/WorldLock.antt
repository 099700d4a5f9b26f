-- ===== src/WorldLock.antt =====
-- crates/ovid-world/src/lib.rs: worlds, their content digest, and the lock that a replay reads.
-- `WorldCodec` is what the crates `sha2`, `hex` and `serde_json` compute; nothing is assumed of it.
pub mod Compose
pub mod Digests
pub mod Addresses
pub mod Startup
use ovid.Prelude.{
  ℕ, ℤ, ◌+◌, ◌%◌, Bool, true, false, Option, none, some, List, [], ◌∷◌, ◌++◌, Text, lit, show, take,
  text_eq,
}
use ovid.Prelude.Order.{sort, sort_by, upsert, text_order}
use ovid.Core.Digest.{Digest, of_bytes, hex}

pub data Treatment : Type 0 where
  real_service : (pack image : Text) → Treatment
  stub : (protocol : Text) → Treatment
  fixture : (path : Text) → Treatment
  absent : Treatment
  unresolved : (reason : Text) → Treatment

pub record WorldDependency : Type 0 where
  pub id : Text
  pub treatment : Treatment
  pub aliases : List Text
  pub port : Option ℕ
  pub environment : List (Text × Text)

pub record World : Type 0 where
  pub target : Text
  pub tools : List Text
  pub dependencies : List WorldDependency
  pub environment : List (Text × Text)

pub record WorldCodec : Type 0 where
  pub sha256_hex : Text → Text
  pub world_json : World → Text

abbrev pub dependency_id : WorldDependency → Text
dependency_id d = d.id

unfoldable pub canonical : World → World
canonical w = record w { dependencies = sort_by dependency_id w.dependencies; tools = sort w.tools }

unfoldable pub digest : WorldCodec → World → Digest
digest k w = of_bytes k.sha256_hex (k.world_json (canonical w))

-- `verified_status` is `WorldStatus::Verified`.
pub data WorldStatus : Type 0 where
  proposed_status verified_status replay_failed : WorldStatus

pub data SuccessSpec : Type 0 where
  exit_code : (expected : ℤ) → SuccessSpec
  output_contains : (needle : Text) → SuccessSpec
  artifact_exists : (path : Text) → SuccessSpec

pub record WorldLockMetadata : Type 0 where
  pub world_id : Text
  pub digest : Digest

pub record WorldNetwork : Type 0 where
  pub cidr : Text
  pub dns : List (Text × Text)

-- `cell_kind` is the field `kind`.
pub record WorldCell : Type 0 where
  pub id : Text
  pub cell_kind : Text
  pub image : Option Text
  pub provider_pack : Option Text
  pub environment : List (Text × Text)
  pub port : Option ℕ

pub record WorkloadSpec : Type 0 where
  pub cell : Text
  pub command : List Text
  pub success : SuccessSpec

pub record WorldLock : Type 0 where
  pub api_version : Text
  pub kind : Text
  pub metadata : WorldLockMetadata
  pub policy : List (Text × Text)
  pub network : WorldNetwork
  pub tools : List Text
  pub cells : List WorldCell
  pub startup_order : List Text
  pub workload : WorkloadSpec
  pub status : WorldStatus

-- The variables of the loop of `from_world`; `address_host` is a `u8`, which wraps.
pub record Loop : Type 0 where
  pub cells : List WorldCell
  pub startup : List Text
  pub dns : List (Text × Text)
  pub address_host : ℕ

unfoldable pub address : ℕ → Text
address host = lit "10.203.0." ++ show host

-- `dns.insert(alias.clone(), address.clone())` for each alias.
unfoldable pub add_aliases : List Text → Text → List (Text × Text) → List (Text × Text)
add_aliases [] a dns = dns
add_aliases (alias ∷ rest) a dns = add_aliases rest a (upsert alias (λ _. a) a dns)

-- The arms of a real service and of a stub, which differ in the cell.
unfoldable pub start_cell : Loop → WorldDependency → WorldCell → Loop
start_cell s d cell = record {
  cells = s.cells ++ (cell ∷ []);
  startup = s.startup ++ (d.id ∷ []);
  dns = add_aliases d.aliases (address s.address_host) s.dns;
  address_host = (s.address_host + 1) % 256;
}

pub service_cell : WorldDependency → Text → Text → WorldCell
service_cell d pack image = record {
  id = d.id;
  cell_kind = lit "service";
  image = some image;
  provider_pack = some pack;
  environment = d.environment;
  port = d.port;
}

pub stub_cell : WorldDependency → Text → WorldCell
stub_cell d protocol = record {
  id = d.id;
  cell_kind = lit "stub";
  image = none;
  provider_pack = some (lit "stub:" ++ protocol);
  environment = d.environment;
  port = d.port;
}

pub unresolved_cell : WorldDependency → WorldCell
unresolved_cell d = record {
  id = d.id;
  cell_kind = lit "unresolved";
  image = none;
  provider_pack = none;
  environment = [];
  port = d.port;
}

-- The body of the loop, by the dependency's treatment.
unfoldable pub place : Loop → WorldDependency → Treatment → Loop
place s d (real_service pack image) = start_cell s d (service_cell d pack image)
place s d (stub protocol) = start_cell s d (stub_cell d protocol)
place s d (unresolved reason) = record s { cells = s.cells ++ (unresolved_cell d ∷ []) }
place s d (fixture path) = s
place s d absent = s

unfoldable pub place_all : Loop → List WorldDependency → Loop
unfolding place
place_all s [] = s
place_all s (d ∷ ds) = place_all (place s d d.treatment) ds

abbrev pub start : Loop
start = record { cells = []; startup = []; dns = []; address_host = 20 }

pub target_cell : World → WorldCell
target_cell w = record {
  id = lit "target";
  cell_kind = lit "target";
  image = none;
  provider_pack = none;
  environment = w.environment;
  port = none;
}

-- The keys of a `BTreeMap` ascend.
policy_defaults : List (Text × Text)
policy_defaults =
    (lit "egress", lit "deny")
    ∷ (lit "payload_retention", lit "metadata")
    ∷ (lit "tls_mode", lit "metadata")
    ∷ []

-- The lock that is built from the loop's variables.
unfoldable pub lock_of : WorldCodec → World → List Text → SuccessSpec → Loop → WorldLock
unfolding policy_defaults
lock_of k w command success s = record {
  api_version = lit "ovid.dev/world/v1alpha1";
  kind = lit "WorldLock";
  metadata = record { world_id = lit "world:" ++ take 16 (hex (digest k w)); digest = digest k w };
  policy = policy_defaults;
  network = record { cidr = lit "10.203.0.0/24"; dns = s.dns };
  tools = sort w.tools;
  cells = s.cells ++ (target_cell w ∷ []);
  startup_order = s.startup ++ (lit "target" ∷ []);
  workload = record { cell = lit "target"; command = command; success = success };
  status = proposed_status;
}

unfoldable pub from_world : WorldCodec → World → List Text → SuccessSpec → WorldLock
from_world k w command success = lock_of k w command success (place_all start w.dependencies)
