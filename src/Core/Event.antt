-- ===== src/Core/Event.antt =====
-- crates/ovid-core/src/event.rs: boundary events and their envelope. A wall-clock time is opaque
-- text, as nothing of the program computes with it.
use ovid.Prelude.{
  ℕ, ℤ, is_zero, Bool, false, not, ◌||◌, Option, none, some, List, Text, lit, is_some, text_eq,
}
use ovid.Core.Digest.{Digest}
use ovid.Core.Trust.{TrustTier}

pub record ProcessIdentity : Type 0 where
  pub pid : ℕ
  pub parent_pid : Option ℕ
  pub executable : Option Text

-- The arguments of a constructor are the fields of the variant, in the source's order.
pub data BoundaryEvent : Type 0 where
  process_forked : ℕ → BoundaryEvent
  process_exec : (path : Text) (argv : List Text) (errno : Option Text) → BoundaryEvent
  process_exited : (exit_code : ℤ) (signal : Option ℤ) → BoundaryEvent
  file_opened : (path : Text) (errno : Option Text) (write : Bool) → BoundaryEvent
  shared_object_mapped : (path : Text) → BoundaryEvent
  socket_connect :
      (address : Text) (port : ℕ) (original_dns_name result protocol_hint : Option Text)
      → BoundaryEvent
  socket_bound : (address : Text) (port : ℕ) → BoundaryEvent
  socket_listening : (address : Text) (port : ℕ) → BoundaryEvent
  unix_socket_connected : (path : Text) (result : Option Text) → BoundaryEvent
  dns_query : (name : Text) (answer decision server : Option Text) → BoundaryEvent
  artifact_created : (path : Text) (digest : Option Digest) → BoundaryEvent
  artifact_downloaded :
      (url : Text) (digest : Option Digest) (media_type : Option Text) → BoundaryEvent
  events_dropped : (count : ℕ) (reason : Text) → BoundaryEvent
  test_result : (name : Text) (passed : Bool) → BoundaryEvent
  run_outcome : (success : Bool) (detail : Text) → BoundaryEvent

-- `Some(r) if r != "success"`
is_error : Option Text → Bool
is_error none = false
is_error (some r) = not (text_eq.beq r (lit "success"))

unfoldable pub is_failure : BoundaryEvent → Bool
unfolding is_error
is_failure (process_exec path argv errno) = is_some errno
is_failure (file_opened path errno write) = is_some errno
is_failure (socket_connect address port name result hint) = is_error result
is_failure (unix_socket_connected path result) = is_error result
is_failure (process_exited exit_code signal) = not (is_zero exit_code) || is_some signal
is_failure (test_result name passed) = not passed
is_failure (run_outcome success detail) = not success
is_failure _ = false

unfoldable pub type_label : BoundaryEvent → Text
type_label (process_forked child_pid) = lit "process-forked"
type_label (process_exec path argv errno) = lit "process-exec"
type_label (process_exited exit_code signal) = lit "process-exited"
type_label (file_opened path errno write) = lit "file-opened"
type_label (shared_object_mapped path) = lit "shared-object-mapped"
type_label (socket_connect address port name result hint) = lit "socket-connect"
type_label (socket_bound address port) = lit "socket-bound"
type_label (socket_listening address port) = lit "socket-listening"
type_label (unix_socket_connected path result) = lit "unix-socket-connected"
type_label (dns_query name answer decision server) = lit "dns-query"
type_label (artifact_created path digest) = lit "artifact-created"
type_label (artifact_downloaded url digest media_type) = lit "artifact-downloaded"
type_label (events_dropped count reason) = lit "events-dropped"
type_label (test_result name passed) = lit "test-result"
type_label (run_outcome success detail) = lit "run-outcome"

pub record EventEnvelope : Type 0 where
  pub event_id : Text
  pub run_id : Text
  pub sequence : ℕ
  pub wall_time : Option Text
  pub provider : Text
  pub provider_version : Text
  pub trust_tier : TrustTier
  pub process : Option ProcessIdentity
  pub event : BoundaryEvent
