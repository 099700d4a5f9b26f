-- ===== src/Observer/Dns/Names.antt =====
-- crates/ovid-observer/src/dns.rs: big-endian numbers and compressed names. Bytes are numbers below
-- 256; a mask of low bits is a remainder and a shift a product or a quotient by a power of two.
pub mod Bounds
pub mod Inside
pub mod Encoded
use ovid.Prelude.{
  ◌>>=◌, ℕ, zero, suc, ◌+◌, ◌*◌, ◌/◌, ◌%◌, Bool, true, false, ◌&&◌, ◌||◌, Option, none, some, List,
  [], ◌∷◌, ◌++◌, Text, lit, length, get_elem?, take, drop, all, map, is_empty, leb, ltb, nat_beq,
  unwrap_or, join, if◌then◌else◌,
}

-- `bytes.get(start..start + len)`
unfoldable pub get_range : List ℕ → ℕ → ℕ → Option (List ℕ)
get_range bytes start len =
    if leb (start + len) (length bytes) then some (take len (drop start bytes)) else none

unfoldable pub read_u16 : List ℕ → ℕ → Option ℕ
read_u16 bytes offset = do
  high ← get_elem? bytes offset
  low ← get_elem? bytes (offset + 1)
  some (high * 256 + low)

abbrev pub is_digit_byte : ℕ → Bool
is_digit_byte b = leb b'0' b && leb b b'9'

abbrev pub is_upper : ℕ → Bool
is_upper b = leb b'A' b && leb b b'Z'

abbrev pub is_lower : ℕ → Bool
is_lower b = leb b'a' b && leb b b'z'

-- The bytes of a plausible host name.
abbrev pub is_plausible : ℕ → Bool
is_plausible b =
    is_digit_byte b
    || is_upper b
    || is_lower b
    || nat_beq b b'-'
    || nat_beq b b'_'
    || nat_beq b b'.'
    || nat_beq b b'*'

-- `to_lowercase` on a plausible byte.
abbrev pub to_lower : ℕ → ℕ
to_lower b = if is_upper b then b + 32 else b

-- The variables of the loop of `read_name`.
pub record NameLoop : Type 0 where
  pub offset : ℕ
  pub labels : List Text
  pub jumps : ℕ
  pub end_offset : Option ℕ

pub data Step : Type 0 where
  going : NameLoop → Step
  finished : Option (Text × ℕ) → Step

-- `if end_offset.is_none() { end_offset = Some(at) }`
abbrev pub or_end : Option ℕ → ℕ → Option ℕ
or_end none at = some at
or_end (some e) at = some e

-- After the loop.
unfoldable pub finish : NameLoop → ℕ → Option (Text × ℕ)
finish s at =
    if is_empty s.labels
    then none
    else some (join (lit ".") s.labels, unwrap_or (or_end s.end_offset at) s.offset)

-- A compression pointer, given the byte after its first.
unfoldable pub jump : List ℕ → NameLoop → ℕ → Option ℕ → Step
jump bytes s len none = finished none
jump bytes s len (some low) =
    let pointer = len % 64 * 256 + low in
    if ltb 10 (s.jumps + 1) || leb (length bytes) pointer
    then finished none
    else going (record s {
      offset = pointer;
      jumps = s.jumps + 1;
      end_offset = or_end s.end_offset (s.offset + 2);
    })

-- A label, given its bytes.
unfoldable pub push_label : NameLoop → ℕ → Option (List ℕ) → Step
push_label s len none = finished none
push_label s len (some label) =
    if all is_plausible label
    then going
        (record s { labels = s.labels ++ (map to_lower label ∷ []); offset = s.offset + (1 + len) })
    else finished none

-- A round, given its first byte.
unfoldable pub at_length : List ℕ → NameLoop → Option ℕ → Step
at_length bytes s none = finished none
at_length bytes s (some len) =
    if nat_beq len 0
    then finished (finish s (s.offset + 1))
    else if nat_beq (len / 64 % 4) 3
    then jump bytes s len (get_elem? bytes (s.offset + 1))
    else if ltb 63 len || ltb 32 (length s.labels)
    then finished none
    else push_label s len (get_range bytes (s.offset + 1) len)

unfoldable pub name_round : List ℕ → NameLoop → Step
name_round bytes s = at_length bytes s (get_elem? bytes s.offset)

abbrev pub name_next : (NameLoop → Step) → Step → Step
name_next rest (going s) = rest s
name_next rest (finished r) = finished r

-- The loop, on fuel.
unfoldable pub name_loop : List ℕ → ℕ → NameLoop → Step
name_loop bytes zero s = going s
name_loop bytes (suc fuel) s = name_next (name_loop bytes fuel) (name_round bytes s)

abbrev pub name_start : ℕ → NameLoop
name_start offset = record { offset = offset; labels = []; jumps = 0; end_offset = none }

-- 10 jumps, 33 labels and the last round are at most 44 rounds.
abbrev pub name_fuel : ℕ
name_fuel = 44

abbrev pub result : Step → Option (Text × ℕ)
result (going s) = none
result (finished r) = r

unfoldable pub read_name : List ℕ → ℕ → Option (Text × ℕ)
read_name bytes offset = result (name_loop bytes name_fuel (name_start offset))
