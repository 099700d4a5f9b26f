-- ===== src/Observer/Dns/Packets/Messages.antt =====
-- crates/ovid-observer/src/dns.rs: parsing what a resolver client sends and receives.
use ovid.Prelude.{
  ℕ, ◌+◌, ◌*◌, ◌/◌, ◌%◌, ◌≤◌, ◌≡◌, refl, ap, ◌∙◌, true, false, not, some, List, [], ◌∷◌, ◌++◌, Text,
  length, drop, map, ltb, nat_beq, if◌then◌else◌, arith, length-append, All,
}
use ovid.Observer.Dns.Names.{read_u16, read_name}
use ovid.Observer.Dns.Names.Encoded.{
  IsLabel, encode_name, name_length, lower_name, drop-past, drop-at, read_u16-drop,
  read_name-encode,
}
use ovid.Observer.Dns.Packets.{read_answers, at_most_32, parse_dns_packet, is_lookup_type}
use ovid.Observer.Dns.Packets.Answers.{Answer, IsAddress, encode_answers, answers_lem}

-- The identifier and the flags, two bytes each.
pub record Header : Type 0 where
  pub id_high : ℕ
  pub id_low : ℕ
  pub flags_high : ℕ
  pub flags_low : ℕ

abbrev pub flags : Header → ℕ
flags m = m.flags_high * 256 + m.flags_low

-- A message about one name: the header, the question of class IN and the answers.
abbrev pub message : Header → List Text → ℕ → List Answer → List ℕ
message m labels qtype rs =
    m.id_high
    ∷ m.id_low
    ∷ m.flags_high
    ∷ m.flags_low
    ∷ 0
    ∷ 1
    ∷ 0
    ∷ length rs
    ∷ 0
    ∷ 0
    ∷ 0
    ∷ 0
    ∷ (encode_name labels ++ (0 ∷ qtype ∷ 0 ∷ 1 ∷ encode_answers rs))

encode_name-length : (labels : List Text) → length (encode_name labels) ≡ name_length labels + 1
encode_name-length [] = refl
encode_name-length (l ∷ labels) =
    omega (arith, length-append l (encode_name labels), encode_name-length labels)

-- The question of a message, and the offset past its name.
question_lem :
    (m : Header) (l : Text) (labels : List Text) (qtype : ℕ) (rs : List Answer)
    → All IsLabel (l ∷ labels)
    → length labels ≤ 32
    → let bytes = message m (l ∷ labels) qtype rs in
      let o = 12 + name_length (l ∷ labels) + 1 in
      (read_name bytes 12 ≡ some (lower_name (l ∷ labels), o))
      × (drop o bytes ≡ 0 ∷ qtype ∷ 0 ∷ 1 ∷ encode_answers rs)
question_lem m l labels qtype rs h n =
    let bytes = message m (l ∷ labels) qtype rs in
    let size = encode_name-length (l ∷ labels) in
    let place : 12 + name_length (l ∷ labels) + 1 ≡ 12 + length (encode_name (l ∷ labels)) =
      omega (arith, size) in
    (
      read_name-encode l labels bytes 12 _ h n refl,
      drop-at bytes place ∙ drop-past (encode_name (l ∷ labels)) bytes 12 refl,
    )

-- What the reads of a packet say of its parse.
parse_lem :
    (bytes : List ℕ) (bits n o qtype : ℕ) (name : Text)
    → ltb (length bytes) 12 ≡ false
    → read_u16 bytes 2 ≡ some bits
    → nat_beq (bits / 2048 % 16) 0 ≡ true
    → read_u16 bytes 4 ≡ some 1
    → read_u16 bytes 6 ≡ some n
    → read_name bytes 12 ≡ some (name, o)
    → read_u16 bytes o ≡ some qtype
    → is_lookup_type qtype ≡ true
    → read_u16 bytes (o + 2) ≡ some 1
    → parse_dns_packet bytes
      ≡ some (record {
        is_response = not (nat_beq (bits / 32768 % 2) 0);
        question = name;
        answers =
            if not (nat_beq (bits / 32768 % 2) 0)
            then read_answers (at_most_32 n) bytes (o + 4)
            else [];
      })
unfolding parse_dns_packet
parse_lem bytes bits n o qtype name size f op one answers named asked lookup class =
    rw (size, f, op, one, answers, named, asked, lookup, class) refl

message_lem :
    (m : Header) (l : Text) (labels : List Text) (qtype : ℕ) (rs : List Answer)
    → All IsLabel (l ∷ labels)
    → length labels ≤ 32
    → is_lookup_type qtype ≡ true
    → nat_beq ((flags m) / 2048 % 16) 0 ≡ true
    → let bytes = message m (l ∷ labels) qtype rs in
      let o = 12 + name_length (l ∷ labels) + 1 in
      parse_dns_packet bytes
      ≡ some (record {
        is_response = not (nat_beq ((flags m) / 32768 % 2) 0);
        question = lower_name (l ∷ labels);
        answers =
            if not (nat_beq ((flags m) / 32768 % 2) 0)
            then read_answers (at_most_32 (0 * 256 + length rs)) bytes (o + 4)
            else [];
      })
message_lem m l labels qtype rs h n t op =
    let bytes = message m (l ∷ labels) qtype rs in
    let o = 12 + name_length (l ∷ labels) + 1 in
    let q = question_lem m l labels qtype rs h n in
    let long : ltb (length bytes) 12 ≡ false = ground arith in
    let qtype_value : 0 * 256 + qtype ≡ qtype = omega arith in
    parse_lem bytes (flags m) (0 * 256 + length rs) o qtype (lower_name (l ∷ labels)) long
      (read_u16-drop bytes 2 refl) op (read_u16-drop bytes 4 refl) (read_u16-drop bytes 6 refl) q.0
      (read_u16-drop bytes o q.1 ∙ ap some qtype_value) t
      (read_u16-drop bytes (o + 2) (drop-past (0 ∷ qtype ∷ []) bytes o q.1))

-- A query for a host name of 1 to 33 labels parses to that name in lower case.
parse_dns_packet-query :
    (m : Header) (l : Text) (labels : List Text) (qtype : ℕ)
    → All IsLabel (l ∷ labels)
    → length labels ≤ 32
    → is_lookup_type qtype ≡ true
    → nat_beq (flags m / 2048 % 16) 0 ≡ true
    → nat_beq (flags m / 32768 % 2) 0 ≡ true
    → parse_dns_packet (message m (l ∷ labels) qtype [])
      ≡ some (record { is_response = false; question = lower_name (l ∷ labels); answers = [] })
parse_dns_packet-query m l labels qtype h n t op q =
    message_lem m l labels qtype [] h n t op ∙ rw q refl

-- A response of opcode 0 about a host name of 1 to 33 labels, with up to 32 answers of type A or
-- AAAA that name the question by a compression pointer, parses to that name in lower case and all
-- the addresses, in their order, whatever the other flags and the times to live are.
pub parse_dns_packet-response :
    (m : Header) (l : Text) (labels : List Text) (qtype : ℕ) (rs : List Answer)
    → All IsLabel (l ∷ labels)
    → length labels ≤ 32
    → is_lookup_type qtype ≡ true
    → length rs ≤ 32
    → All (λ (a : Answer). IsAddress a.address) rs
    → nat_beq (flags m / 2048 % 16) 0 ≡ true
    → nat_beq (flags m / 32768 % 2) 0 ≡ false
    → parse_dns_packet (message m (l ∷ labels) qtype rs)
      ≡ some (record {
        is_response = true;
        question = lower_name (l ∷ labels);
        answers = map (λ (a : Answer). a.address) rs;
      })
parse_dns_packet-response m l labels qtype rs h n t few s op response =
    let bytes = message m (l ∷ labels) qtype rs in
    let o = 12 + name_length (l ∷ labels) + 1 in
    let q = question_lem m l labels qtype rs h n in
    let count : at_most_32 (0 * 256 + length rs) ≡ length rs = ground arith in
    let read =
      answers_lem l labels bytes rs (o + 4) _ h n s refl
        (drop-past (0 ∷ qtype ∷ 0 ∷ 1 ∷ []) bytes o q.1) in
    message_lem m l labels qtype rs h n t op
    ∙ rw response (
        ap
          (λ a.
            some (record { is_response = true; question = lower_name (l ∷ labels); answers = a }))
          (ap (λ k. read_answers k bytes (o + 4)) count ∙ read))
