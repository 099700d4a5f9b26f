-- ===== src/Evidence/Record.antt =====
-- crates/ovid-evidence/src/record.rs: evidence records. `JsonCodec` is what `sha2`, `hex` and
-- `serde_json` compute for them; a JSON payload is opaque text.
use ovid.Prelude.{Option, none, some, Text}
use ovid.Core.Digest.{Digest, of_bytes}
use ovid.Core.Event.{EventEnvelope, type_label}
use ovid.Core.Id.{OvidId}
use ovid.Core.Trust.{TrustTier}

pub record EvidenceRecord : Type 0 where
  pub id : OvidId
  pub record_type : Text
  pub run_id : Option OvidId
  pub wall_time : Option Text
  pub provider : Text
  pub provider_version : Text
  pub trust_tier : TrustTier
  pub payload : Text
  pub previous : Option Digest

pub record JsonCodec : Type 0 where
  pub sha256_hex : Text → Text
  pub record_json : EvidenceRecord → Text
  pub parse_record : Text → Option EvidenceRecord
  pub envelope_json : EventEnvelope → Text

-- `payload` is the field `data`.
unfoldable pub from_event : JsonCodec → OvidId → EventEnvelope → EvidenceRecord
from_event k id envelope = record {
  id = id;
  record_type = type_label envelope.event;
  run_id = some envelope.run_id;
  wall_time = envelope.wall_time;
  provider = envelope.provider;
  provider_version = envelope.provider_version;
  trust_tier = envelope.trust_tier;
  payload = k.envelope_json envelope;
  previous = none;
}

unfoldable pub digest : JsonCodec → EvidenceRecord → Digest
digest k r = of_bytes k.sha256_hex (k.record_json r)
