-- ===== src/Examples/Events.antt =====
-- crates/ovid-observer/src/aggregate.rs at a concrete input.
use ovid.Prelude.{◌+◌, ◌≡◌, refl, false, none, some, List, [], ◌∷◌, lit, arith, length, here, there}
use ovid.Core.Trust.{t1}
use ovid.Core.Event.{BoundaryEvent, EventEnvelope, file_opened, process_forked}
use ovid.Observer.Aggregate.{aggregate, is_noise}
use ovid.Observer.Aggregate.Accounting.{total, aggregate-accounts}
use ovid.Observer.Aggregate.Retention.{Covered, aggregate-Covered}

abbrev pub envelope : BoundaryEvent → EventEnvelope
envelope event = record {
  event_id = lit "event:1";
  run_id = lit "run:1";
  sequence = 0;
  wall_time = none;
  provider = lit "strace";
  provider_version = lit "1";
  trust_tier = t1;
  process = none;
  event = event;
}

abbrev missing : EventEnvelope
missing = envelope (file_opened (lit "/proc/self") (some (lit "ENOENT")) false)

abbrev forked : EventEnvelope
forked = envelope (process_forked 7)

abbrev input : List EventEnvelope
input = envelope (file_opened (lit "/proc/self") none false) ∷ missing ∷ missing ∷ forked ∷ []

aggregate-Covered_example : Covered forked (aggregate 0 input).events
unfolding is_noise
aggregate-Covered_example =
    aggregate-Covered 0 input forked (omega arith) (there (there (there (here refl)))) refl

aggregate-accounts_example :
    let r = aggregate 0 input in
    (length r.events + total r.collapsed + r.noise_dropped ≡ r.input_count)
    × (r.input_count ≡ length input)
aggregate-accounts_example = aggregate-accounts 0 input (omega arith)
