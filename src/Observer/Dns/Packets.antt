-- ===== src/Observer/Dns/Packets.antt =====
-- crates/ovid-observer/src/dns.rs: parsing a packet. An address is the bytes of its text's parts.
pub mod Answers
pub mod Messages
use ovid.Prelude.{
  ◌>>=◌, ℕ, zero, suc, ◌+◌, ◌*◌, ◌/◌, ◌%◌, Bool, true, false, not, ◌&&◌, ◌||◌, Option, none, some,
  List, [], ◌∷◌, ◌++◌, Text, length, ltb, nat_beq, if◌then◌else◌,
}
use ovid.Observer.Dns.Names.{read_u16, read_name, get_range}

pub data IpAddr : Type 0 where
  v4 : List ℕ → IpAddr
  v6 : List ℕ → IpAddr

pub record DnsPacket : Type 0 where
  pub is_response : Bool
  pub question : Text
  pub answers : List IpAddr

-- The `match` on the record's type and length.
unfoldable pub address : ℕ → ℕ → List ℕ → List IpAddr
address rtype rdlen rdata =
    if nat_beq rtype 1 && nat_beq rdlen 4
    then v4 rdata ∷ []
    else if nat_beq rtype 28 && nat_beq rdlen 16
    then v6 rdata ∷ []
    else []

-- One answer: what it pushes, and where the next begins.
unfoldable pub read_answer : List ℕ → ℕ → Option (List IpAddr × ℕ)
read_answer bytes offset = do
  name ← read_name bytes offset
  rtype ← read_u16 bytes name.1
  rdlen ← read_u16 bytes (name.1 + 8)
  rdata ← get_range bytes (name.1 + 10) rdlen
  some (address rtype rdlen rdata, name.1 + 10 + rdlen)

-- A `break` ends the loop over the answers.
abbrev pub next_answer : (ℕ → List IpAddr) → Option (List IpAddr × ℕ) → List IpAddr
next_answer rest none = []
next_answer rest (some (pushed, next)) = pushed ++ rest next

unfoldable pub read_answers : ℕ → List ℕ → ℕ → List IpAddr
read_answers zero bytes offset = []
read_answers (suc n) bytes offset = next_answer (read_answers n bytes) (read_answer bytes offset)

abbrev pub is_lookup_type : ℕ → Bool
is_lookup_type t = nat_beq t 1 || nat_beq t 5 || nat_beq t 28 || nat_beq t 65 || nat_beq t 255

abbrev pub is_lookup_class : ℕ → Bool
is_lookup_class c = nat_beq c 1 || nat_beq c 255

abbrev pub at_most_32 : ℕ → ℕ
at_most_32 n = if ltb 32 n then 32 else n

-- `if condition { return None }`
abbrev pub unless : Bool → Option (Unit {0})
unless true = none
unless false = some tt

unfoldable pub parse_dns_packet : List ℕ → Option DnsPacket
parse_dns_packet bytes = do
  _ ← unless (ltb (length bytes) 12)
  flags ← read_u16 bytes 2
  _ ← unless (not (nat_beq (flags / 2048 % 16) 0))
  question_count ← read_u16 bytes 4
  answer_count ← read_u16 bytes 6
  _ ← unless (nat_beq question_count 0 || ltb 4 question_count)
  question ← read_name bytes 12
  qtype ← read_u16 bytes question.1
  qclass ← read_u16 bytes (question.1 + 2)
  _ ← unless (not (is_lookup_type qtype) || not (is_lookup_class qclass))
  let is_response = not (nat_beq (flags / 32768 % 2) 0)
  some (record {
    is_response = is_response;
    question = question.0;
    answers =
        if is_response then read_answers (at_most_32 answer_count) bytes (question.1 + 4) else [];
  })
