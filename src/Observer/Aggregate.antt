-- ===== src/Observer/Aggregate.antt =====
-- crates/ovid-observer/src/aggregate.rs: event reduction. The process-wide counter of
-- `fastrand_counter` is threaded through; the map `seen` is kept in the order of its keys.
pub mod Retention
pub mod Seen
pub mod Signatures
pub mod Accounting
use ovid.Prelude.{
  ℕ, ◌+◌, ◌%◌, ◌^◌, Bool, true, false, Option, none, some, List, [], ◌∷◌, ◌++◌, Text, lit, show,
  length, any, keep_if, unwrap_or, starts_with, ltb, if◌then◌else◌, text_eq, is_some,
}
use ovid.Prelude.Order.{upsert, lookup, text_order}
use ovid.Core.Event.{
  BoundaryEvent, EventEnvelope, file_opened, shared_object_mapped, process_exec, socket_connect,
  unix_socket_connected, dns_query, type_label,
}

abbrev noise_prefixes : List Text
noise_prefixes =
    lit "/proc/"
    ∷ lit "/sys/"
    ∷ lit "/etc/ld.so.cache"
    ∷ lit "/usr/lib/locale"
    ∷ lit "/usr/share/locale"
    ∷ lit "/dev/null"
    ∷ lit "/dev/urandom"
    ∷ []

pub record AggregatedEvents : Type 0 where
  pub events : List EventEnvelope
  pub collapsed : List (Text × ℕ)
  pub noise_dropped : ℕ
  pub input_count : ℕ

show_bool : Bool → Text
show_bool true = lit "true"
show_bool false = lit "false"

-- The signature of an event that repeats may collapse; `none` for a state transition.
unfoldable pub repeat_key : BoundaryEvent → Option Text
unfolding show_bool
repeat_key (file_opened path errno write) = some (
    lit "file-opened|"
    ++ (path ++ (lit "|" ++ (unwrap_or errno (lit "ok") ++ (lit "|" ++ show_bool write)))))
repeat_key (shared_object_mapped path) = some (lit "so-mapped|" ++ path)
repeat_key (process_exec path argv errno) =
    some (lit "exec|" ++ (path ++ (lit "|" ++ unwrap_or errno (lit "ok"))))
repeat_key (socket_connect address port name result hint) = some (
    lit "connect|"
    ++ (address ++ (lit "|" ++ (show port ++ (lit "|" ++ unwrap_or result (lit "?"))))))
repeat_key (unix_socket_connected path result) =
    some (lit "unix-connect|" ++ (path ++ (lit "|" ++ unwrap_or result (lit "?"))))
repeat_key (dns_query name answer decision server) =
    some (lit "dns|" ++ (name ++ (lit "|" ++ unwrap_or answer (lit "query"))))
repeat_key _ = none

pub unique_key : Text → ℕ → Text
unique_key label n = lit "unique|" ++ (label ++ (lit "|" ++ show n))

-- `signature`, with the counter before and after.
unfoldable pub signature : BoundaryEvent → ℕ → Text × ℕ
unfolding unique_key
signature event counter = elim (repeat_key event) [
  | some key ↦ (key, counter)
  | none ↦ (unique_key (type_label event) counter, (counter + 1) % 2 ^ 64)
]

unfoldable pub is_noise : BoundaryEvent → Bool
is_noise (file_opened path none write) = any (λ p. starts_with p path) noise_prefixes
is_noise _ = false

-- The variables of the loop.
pub record Loop : Type 0 where
  pub seen : List (Text × ℕ)
  pub events : List EventEnvelope
  pub noise_dropped : ℕ
  pub counter : ℕ

abbrev pub start : ℕ → Loop
start counter = record { seen = []; events = []; noise_dropped = 0; counter = counter }

-- One round, given the signature and what `seen` holds for it.
pub record_event : Loop → EventEnvelope → Text × ℕ → Option ℕ → Loop
record_event s envelope (sig, counter) (some count) = record s {
  seen = upsert sig (λ c. (c + 1) % 2 ^ 64) 0 s.seen;
  counter = counter;
}
record_event s envelope (sig, counter) none = record s {
  seen = upsert sig (λ c. c) 0 s.seen;
  events = s.events ++ (envelope ∷ []);
  counter = counter;
}

round : Loop → EventEnvelope → Loop
unfolding record_event
round s envelope =
    if is_noise envelope.event
    then record s { noise_dropped = (s.noise_dropped + 1) % 2 ^ 64 }
    else (let sig = signature envelope.event s.counter in
        record_event s envelope sig (lookup sig.0 s.seen))

loop : Loop → List EventEnvelope → Loop
unfolding round
loop s [] = s
loop s (envelope ∷ rest) = loop (round s envelope) rest

unfoldable pub aggregate : ℕ → List EventEnvelope → AggregatedEvents
unfolding loop
aggregate counter input =
    let s = loop (start counter) input in
    record {
      events = s.events;
      collapsed = keep_if (λ e. ltb 0 e.1) s.seen;
      noise_dropped = s.noise_dropped;
      input_count = length input;
    }
