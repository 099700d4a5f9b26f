-- ===== src/Observer/Strace/Sockets.antt =====
-- crates/ovid-observer/src/strace.rs: the calls on sockets.
pub mod Payloads
use ovid.Prelude.{
  ℕ, ℤ, pos, negsuc, Bool, true, false, not, ◌&&◌, ◌||◌, Option, none, some, List, [], ◌∷◌, ◌++◌,
  Text, lit, find_key, put, nat_eq, int_eq, text_eq, nat_beq, is_negative, is_zero, unwrap_or,
  parse_signed, parse_unsigned, i32_max, u16_max, option_eq, map, if◌then◌else◌, ◌>>=◌,
}
use ovid.Prelude.Order.{pair_eq}
use ovid.Core.Event.{
  BoundaryEvent, unix_socket_connected, socket_connect, socket_bound, socket_listening, dns_query,
}
use ovid.Observer.Strace.{
  Regexes, LineOutcome, event, events, ignored, unparsed, Parser, Step, Fd, call_result,
  result_label,
}
use ovid.Observer.Dns.Escapes.{extract_quoted_strings, decode_strace_bytes}
use ovid.Observer.Dns.Packets.{DnsPacket, IpAddr, parse_dns_packet}
use ovid.Observer.Dns.Addresses.{show_address}

-- `caps[1].parse().unwrap_or(0)` of a port.
abbrev pub port_of : Text → ℕ
port_of digits = unwrap_or (parse_unsigned u16_max digits) 0

-- `unwrap_or(-1)`
abbrev pub fd_of : Text → ℤ
fd_of digits = unwrap_or (parse_signed i32_max digits) (negsuc 0)

-- `c.get(1).or(c.get(2))`
either : Option Text × Option Text → Option Text
either (some a, b) = some a
either (none, b) = b

unfoldable pub address_in : Regexes → Text → Option Text
unfolding either
address_in r rest = r.inet_addr rest >>= either

-- `errno.unwrap_or_else(|| result_label(result))`
unfoldable pub outcome_text : ℤ × Option Text → Text
outcome_text (code, errno) = unwrap_or errno (result_label code)

-- A resolver socket is remembered, if its descriptor can be read.
remember_peer : Regexes → Parser → ℕ → Text → Text → Parser
remember_peer r p pid rest address = elim (r.fd_prefix rest >>= parse_signed i32_max) [
  | none ↦ p
  | some fd ↦ record p { dns_peers = put (pid, fd) address p.dns_peers }
]

connected : Regexes → Parser → ℕ → Text → ℕ → Text → Step
unfolding remember_peer
connected r p pid rest port address = (
  event pid (socket_connect address port none (some (outcome_text (call_result r rest))) none),
  if nat_beq port 53 then remember_peer r p pid rest address else p,
)

unfoldable pub parse_connect : Regexes → Parser → ℕ → Text → Step
unfolding connected
parse_connect r p pid rest = elim (r.unix_path rest) [
  | some path ↦
      (event pid (unix_socket_connected path (some (outcome_text (call_result r rest)))), p)
  | none ↦ (elim (r.inet rest) [
    | none ↦ (ignored, p)
    | some digits ↦
        connected r p pid rest (port_of digits) (unwrap_or (address_in r rest) (lit "unknown"))
  ])
]

-- Both captures, or none.
pub both : Option Text → Option Text → Option (Text × Text)
both (some a) (some b) = some (a, b)
both _ _ = none

unfoldable pub bind_to : Parser → ℕ → ℤ → ℕ → Text → ℤ → Step
bind_to p pid fd port address code =
    if is_zero code
    then (
      event pid (socket_bound address port),
      record p { bound = put (pid, fd) (address, port) p.bound },
    )
    else (ignored, p)

unfoldable pub parse_bind : Regexes → Parser → ℕ → Text → Step
unfolding both bind_to
parse_bind r p pid rest = elim (both (r.fd_prefix rest) (r.inet rest)) [
  | none ↦ (ignored, p)
  | some (fd, port) ↦
      bind_to p pid (fd_of fd) (port_of port) (unwrap_or (address_in r rest) (lit "0.0.0.0"))
        (call_result r rest).0
]

unfoldable pub listening : Parser → ℕ → Option (Text × ℕ) → Step
listening p pid none = (ignored, p)
listening p pid (some (address, port)) = (event pid (socket_listening address port), p)

unfoldable pub parse_listen : Regexes → Parser → ℕ → Text → Step
unfolding listening
parse_listen r p pid rest = elim (r.fd_prefix rest) [
  | none ↦ (ignored, p)
  | some fd ↦
      (if is_zero (call_result r rest).0
        then listening p pid (find_key (pid, fd_of fd) p.bound)
        else (ignored, p))
]

answer_events : DnsPacket → Option Text → List IpAddr → List BoundaryEvent
answer_events packet server answers =
    map (λ a. dns_query packet.question (some (show_address a)) none server) answers

packet_events : Option Text → DnsPacket → List BoundaryEvent
unfolding answer_events
packet_events server packet =
    if packet.is_response
    then answer_events packet server packet.answers
    else dns_query packet.question none none server ∷ []

-- One round of the loop over the quoted strings.
quoted_events : Option Text → Text → List BoundaryEvent
unfolding packet_events
quoted_events server quoted =
    let decoded : List BoundaryEvent = elim (parse_dns_packet (decode_strace_bytes quoted)) [
      | none ↦ []
      | some packet ↦ packet_events server packet
    ] in
    if option_eq.beq (some quoted) server then [] else decoded

all_quoted_events : Option Text → List Text → List BoundaryEvent
unfolding quoted_events
all_quoted_events server [] = []
all_quoted_events server (q ∷ qs) = quoted_events server q ++ all_quoted_events server qs

events_or_ignored : ℕ → List BoundaryEvent → LineOutcome
events_or_ignored pid [] = ignored
events_or_ignored pid (e ∷ es) = events pid (e ∷ es)

-- The events of the payloads, once the resolver is known.
unfoldable pub payload : ℕ → Text → Option Text → LineOutcome
unfolding all_quoted_events events_or_ignored
payload pid rest server =
    events_or_ignored pid (all_quoted_events server (extract_quoted_strings rest))

-- `if let (Some(address), true) = (&address, fd >= 0)`
note_peer : Parser → ℕ → ℤ → Option Text → Parser
note_peer p pid fd none = p
note_peer p pid fd (some address) =
    if is_negative fd then p else record p { dns_peers = put (pid, fd) address p.dns_peers }

unfoldable pub parse_datagram : Regexes → Parser → ℕ → Text → Step
unfolding note_peer
parse_datagram r p pid rest =
    let fd = unwrap_or (r.data_fd rest >>= parse_signed i32_max) (negsuc 0) in
    elim (r.inet rest) [
      | some digits ↦
          (if not (nat_beq (port_of digits) 53)
            then (ignored, p)
            else (payload pid rest (address_in r rest), note_peer p pid fd (address_in r rest)))
      | none ↦ (elim (find_key (pid, fd) p.dns_peers) [
        | none ↦ (ignored, p)
        | some address ↦ (payload pid rest (some address), p)
      ])
    ]
