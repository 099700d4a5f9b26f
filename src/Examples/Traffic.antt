-- ===== src/Examples/Traffic.antt =====
-- crates/ovid-observer/src/dns.rs at concrete inputs.
use ovid.Prelude.{
  ℕ, ◌<◌, ◌≤◌, ◌≡◌, refl, true, false, Option, some, List, [], ◌∷◌, map, Text, lit, arith, length,
  all, join,
}
use ovid.Observer.Dns.Escapes.{decode_strace_bytes, extract_quoted_strings}
use ovid.Observer.Dns.Escapes.Renderings.{
  done, plain, short, octal_1, octal_3, tab, decode_strace_bytes-Rendering,
}
use ovid.Observer.Dns.Escapes.Quotes.{Part, line, extract_quoted_strings-line}
use ovid.Observer.Dns.Names.{
  read_name, name_loop, name_start, name_fuel, finished, read_u16, name_round, at_length,
  push_label, get_range, finish,
}
use ovid.Observer.Dns.Names.Bounds.{read_name-Finishes}
use ovid.Observer.Dns.Names.Inside.{is_host, read_name-inside}
use ovid.Observer.Dns.Names.Encoded.{lower_name}
use ovid.Observer.Dns.Packets.{parse_dns_packet, IpAddr, v4, v6}
use ovid.Observer.Dns.Packets.Answers.{Answer}
use ovid.Observer.Dns.Packets.Messages.{Header, message, parse_dns_packet-response}

abbrev labels : List Text
labels = (b'a' ∷ b'B' ∷ []) ∷ (b'i' ∷ b'o' ∷ []) ∷ []

abbrev header : ℕ → ℕ → Header
header high low = record { id_high = 7; id_low = 9; flags_high = high; flags_low = low }

-- The same by running the parser.
query_runs :
    parse_dns_packet (message (header 1 0) labels 1 [])
    ≡ some (record { is_response = false; question = lit "ab.io"; answers = [] })
unfolding parse_dns_packet read_u16 read_name name_loop name_round at_length push_label get_range
    finish lit join
query_runs = refl

abbrev answer : IpAddr → Answer
answer a = record { t3 = 0; t2 = 0; t1 = 14; t0 = 16; address = a }

abbrev answers : List Answer
answers =
    answer (v4 (10 ∷ 0 ∷ 0 ∷ 1 ∷ []))
    ∷ answer (v6 (32 ∷ 1 ∷ 13 ∷ 184 ∷ 0 ∷ 0 ∷ 0 ∷ 0 ∷ 0 ∷ 0 ∷ 0 ∷ 0 ∷ 0 ∷ 0 ∷ 0 ∷ 1 ∷ []))
    ∷ []

parse_dns_packet-response_example :
    parse_dns_packet (message (header 133 128) labels 28 answers)
    ≡ some (record {
      is_response = true;
      question = lower_name labels;
      answers = map (λ (a : Answer). a.address) answers;
    })
parse_dns_packet-response_example =
    parse_dns_packet-response (header 133 128) (b'a' ∷ b'B' ∷ []) ((b'i' ∷ b'o' ∷ []) ∷ []) 28
      answers ((omega arith, omega arith, refl), ((omega arith, omega arith, refl), tt))
      (omega arith) refl (omega arith) (refl, (refl, tt)) refl refl

-- A name that points at itself.
abbrev circle : List ℕ
circle = 192 ∷ 0 ∷ []

read_name-Finishes_example :
    (r : Option (Text × ℕ)) × (name_loop circle name_fuel (name_start 0) ≡ finished r)
    × (read_name circle 0 ≡ r)
read_name-Finishes_example = read_name-Finishes circle 0

abbrev named : List ℕ
named = 1 ∷ b'A' ∷ 0 ∷ 9 ∷ []

read_name-inside_example : (0 < 3) × (3 ≤ length named) × (all is_host (b'a' ∷ []) ≡ true)
unfolding read_name name_loop name_round at_length push_label get_range finish join
read_name-inside_example = read_name-inside named 0 (b'a' ∷ []) 3 refl

decode_strace_bytes-Rendering_example :
    decode_strace_bytes (b'a' ∷ 92 ∷ b't' ∷ 92 ∷ b'2' ∷ b'7' ∷ b'0' ∷ 92 ∷ b'1' ∷ [])
    ≡ b'a' ∷ 9 ∷ 184 ∷ 1 ∷ []
decode_strace_bytes-Rendering_example =
    decode_strace_bytes-Rendering (b'a' ∷ 9 ∷ 184 ∷ 1 ∷ [])
      (b'a' ∷ 92 ∷ b't' ∷ 92 ∷ b'2' ∷ b'7' ∷ b'0' ∷ 92 ∷ b'1' ∷ [])
      (plain refl (short tab (octal_3 refl refl (omega arith) (octal_1 refl refl tt done))))

abbrev parts : List Part
parts =
    record { before = b'x' ∷ b' ' ∷ []; body = b'p' ∷ 92 ∷ 34 ∷ b'q' ∷ [] }
    ∷ record { before = b',' ∷ []; body = b'y' ∷ [] }
    ∷ []

extract_quoted_strings-line_example :
    extract_quoted_strings (line parts (b')' ∷ [])) ≡ map (λ p. p.body) parts
extract_quoted_strings-line_example =
    extract_quoted_strings-line parts (b')' ∷ []) ((refl, refl), ((refl, refl), tt)) refl
