-- ===== src/Observer/Strace/Sockets/Payloads.antt =====
-- crates/ovid-observer/src/strace.rs: a payload gives DNS queries only.
use ovid.Prelude.{
  ℕ, ◌≡◌, refl, Bool, true, false, not, Option, none, some, List, [], ◌∷◌, ◌++◌, Text, arith, all,
  option_eq, text_eq, Bool-cases, inl, inr, if◌then◌else◌,
}
use ovid.Core.Event.{BoundaryEvent, socket_listening}
use ovid.Observer.Strace.{LineOutcome, event, events, ignored, unparsed}
use ovid.Observer.Dns.Escapes.{extract_quoted_strings, decode_strace_bytes}
use ovid.Observer.Dns.Packets.{DnsPacket, IpAddr, parse_dns_packet}
use ovid.Observer.Strace.Sockets.{
  payload, events_or_ignored, all_quoted_events, quoted_events, packet_events, answer_events,
}

abbrev pub is_listening : BoundaryEvent → Bool
is_listening (socket_listening address port) = true
is_listening _ = false

abbrev none_listening : List BoundaryEvent → Bool
none_listening es = all (λ e. not (is_listening e)) es

-- No event says that a socket listens.
abbrev pub quiet : LineOutcome → Bool
quiet (event pid e) = not (is_listening e)
quiet (events pid es) = none_listening es
quiet ignored = true
quiet unparsed = true

append-none_listening :
    (xs ys : List BoundaryEvent)
    → none_listening xs ≡ true
    → none_listening ys ≡ true
    → none_listening (xs ++ ys) ≡ true
append-none_listening [] ys h k = k
append-none_listening (x ∷ xs) ys h k = ground (arith, append-none_listening xs ys (ground arith) k)

answers-none_listening :
    (packet : DnsPacket) (server : Option Text) (addresses : List IpAddr)
    → none_listening (answer_events packet server addresses) ≡ true
unfolding answer_events
answers-none_listening packet server [] = refl
answers-none_listening packet server (a ∷ addresses) =
    answers-none_listening packet server addresses

packet-none_listening :
    (server : Option Text) (packet : DnsPacket)
    → none_listening (packet_events server packet) ≡ true
unfolding packet_events
packet-none_listening server packet = elim (Bool-cases packet.is_response) [
  | inl t ↦ rw t (answers-none_listening packet server packet.answers)
  | inr f ↦ rw f refl
]

decoded-none_listening :
    (server : Option Text) (o : Option DnsPacket) (skip : Bool)
    → none_listening
        (if skip then [] else elim o [ none ↦ [] | some packet ↦ packet_events server packet ])
      ≡ true
decoded-none_listening server none true = refl
decoded-none_listening server none false = refl
decoded-none_listening server (some packet) true = refl
decoded-none_listening server (some packet) false = packet-none_listening server packet

quoted-none_listening :
    (server : Option Text) (qs : List Text) → none_listening (all_quoted_events server qs) ≡ true
unfolding all_quoted_events quoted_events
quoted-none_listening server [] = refl
quoted-none_listening server (q ∷ qs) =
    append-none_listening (quoted_events server q) (all_quoted_events server qs)
      (decoded-none_listening server (parse_dns_packet (decode_strace_bytes q))
        (option_eq.beq (some q) server))
      (quoted-none_listening server qs)

events-quiet :
    (pid : ℕ) (es : List BoundaryEvent)
    → none_listening es ≡ true
    → quiet (events_or_ignored pid es) ≡ true
unfolding events_or_ignored
events-quiet pid [] h = refl
events-quiet pid (e ∷ es) h = h

pub payload-quiet :
    (pid : ℕ) (rest : Text) (server : Option Text) → quiet (payload pid rest server) ≡ true
unfolding payload
payload-quiet pid rest server =
    events-quiet pid (all_quoted_events server (extract_quoted_strings rest))
      (quoted-none_listening server (extract_quoted_strings rest))
