-- ===== src/Observer/Dns/Escapes.antt =====
-- crates/ovid-observer/src/dns.rs, the text of a trace: decoding an escaped string, and finding the
-- quoted strings of a line. The bytes of a valid line between two quotes are valid text again, so
-- `from_utf8` does not fail.
pub mod Renderings
pub mod Quotes
use ovid.Prelude.{
  ℕ, zero, suc, ◌+◌, ◌-◌, ◌*◌, ◌%◌, Bool, true, false, ◌&&◌, Option, none, some, List, [], ◌∷◌,
  ◌++◌, Text, length, leb, nat_beq, if◌then◌else◌,
}

-- `b'0'..=b'7'`
abbrev pub is_octal : ℕ → Bool
is_octal b = leb b'0' b && leb b b'7'

-- The inner loop: at most so many further digits, and what follows them.
unfoldable pub octal : ℕ → ℕ → Text → ℕ × Text
octal zero value rest = (value, rest)
octal (suc n) value [] = (value, [])
octal (suc n) value (c ∷ rest) = elim (is_octal c) [
  | true ↦ octal n (value * 8 + (c - b'0')) rest
  | false ↦ (value, c ∷ rest)
]

-- What follows a backslash: the bytes pushed, and the rest.
unfoldable pub escape : Text → List ℕ × Text
escape [] = ([], [])
escape (c ∷ rest) =
    if nat_beq c b'n'
    then (10 ∷ [], rest)
    else if nat_beq c b't'
    then (9 ∷ [], rest)
    else if nat_beq c b'r'
    then (13 ∷ [], rest)
    else if nat_beq c b'v'
    then (11 ∷ [], rest)
    else if nat_beq c b'f'
    then (12 ∷ [], rest)
    else if nat_beq c 34
    then (34 ∷ [], rest)
    else if nat_beq c 92
    then (92 ∷ [], rest)
    else if is_octal c
    then (let digits = octal 2 (c - b'0') rest in (digits.0 % 256 ∷ [], digits.1))
    else (c ∷ [], rest)

-- The loop, on fuel: a round takes at least one byte of the text.
unfoldable pub decode : ℕ → Text → List ℕ
decode zero text = []
decode (suc fuel) [] = []
decode (suc fuel) (c ∷ rest) = elim (nat_beq c 92) [
  | false ↦ c ∷ decode fuel rest
  | true ↦ (escape rest).0 ++ decode fuel (escape rest).1
]

unfoldable pub decode_strace_bytes : Text → List ℕ
decode_strace_bytes escaped = decode (length escaped) escaped

prepend : ℕ → Option (Text × Text) → Option (Text × Text)
prepend c none = none
prepend c (some (slice, after)) = some (c ∷ slice, after)

-- From after a quote, or past a backslash: the slice up to the closing quote, and what follows
-- that. There is no slice where the escaped byte lies past the end of the line.
unfoldable pub quoted : Bool → Text → Option (Text × Text)
unfolding prepend
quoted true [] = none
quoted false [] = some ([], [])
quoted true (c ∷ rest) = prepend c (quoted false rest)
quoted false (c ∷ rest) =
    let next = prepend c (quoted (nat_beq c 92) rest) in
    if nat_beq c 34 then some ([], rest) else next

abbrev pub next_slice : (Text → List Text) → Option (Text × Text) → List Text
next_slice more none = []
next_slice more (some (slice, after)) = slice ∷ more after

-- The outer loop, on fuel: a round takes at least one byte of the line.
unfoldable pub extract : ℕ → Text → List Text
extract zero line = []
extract (suc fuel) [] = []
extract (suc fuel) (c ∷ rest) = elim (nat_beq c 34) [
  | false ↦ extract fuel rest
  | true ↦ next_slice (extract fuel) (quoted false rest)
]

unfoldable pub extract_quoted_strings : Text → List Text
extract_quoted_strings line = extract (length line) line
