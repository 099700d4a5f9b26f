-- ===== src/Prelude/Strings/Parts.antt =====
-- The parts of a text: `contains`, `ends_with`, `rsplit_once`, and the last piece of a split.
pub mod Suffixes
use Prim.Native.Nat.{ℕ, zero, suc, ◌+◌, ◌-◌, ◌*◌}
use mathlib.Core.Bool.{Bool, true, false, ◌&&◌, ◌||◌}
use mathlib.Core.List.{List, [], ◌∷◌}
use mathlib.Core.Option.{Option, none, some}
use ovid.Prelude.Tests.{nat_beq, leb, if◌then◌else◌, unwrap_or}
use ovid.Prelude.Strings.{Text, starts_with, show, text_eq}
use ovid.Prelude.Lists.{is_empty, length, take, drop}
use ovid.Prelude.Int.{ℤ, pos, negsuc}

-- `s.contains(p)`
unfoldable pub has_text : Text → Text → Bool
unfolding starts_with
has_text p [] = starts_with p []
has_text p (c ∷ s) = starts_with p (c ∷ s) || has_text p s

-- `s.ends_with(p)`
unfoldable pub ends_with : Text → Text → Bool
ends_with p [] = text_eq.beq p []
ends_with p (c ∷ s) = text_eq.beq p (c ∷ s) || ends_with p s

-- The first piece, and what follows the separator if there is one.
unfoldable pub split_once : ℕ → Text → Option (Text × Text)
split_once d [] = none
split_once d (c ∷ s) =
    let rest : Option (Text × Text) = elim (split_once d s) [
      | none ↦ none
      | some (before, after) ↦ some (c ∷ before, after)
    ] in
    if nat_beq c d then some ([], s) else rest

-- `s.rsplit_once(d)`
unfoldable pub rsplit_once : ℕ → Text → Option (Text × Text)
rsplit_once d [] = none
rsplit_once d (c ∷ s) = elim (rsplit_once d s) [
  | some (before, after) ↦ some (c ∷ before, after)
  | none ↦ (if nat_beq c d then some ([], s) else none)
]

-- `s.rsplit(d).next()`, which is always there.
unfoldable pub last_piece : ℕ → Text → Text
unfolding rsplit_once
last_piece d s = elim (rsplit_once d s) [ none ↦ s | some (before, after) ↦ after ]

-- `s.split(d)`: there is always a piece.
unfoldable pub split : ℕ → Text → List Text
split d [] = [] ∷ []
split d (c ∷ s) =
    let rest = split d s in
    if nat_beq c d
    then [] ∷ rest
    else elim rest [ [] ↦ (c ∷ []) ∷ [] | piece ∷ pieces ↦ (c ∷ piece) ∷ pieces ]

-- `s.trim_start_matches(c)` and `s.trim_end_matches(c)` of a character.
unfoldable pub trim_start_char : ℕ → Text → Text
trim_start_char d [] = []
trim_start_char d (c ∷ s) = let rest = trim_start_char d s in if nat_beq c d then rest else c ∷ s

unfoldable pub trim_end_char : ℕ → Text → Text
trim_end_char d [] = []
trim_end_char d (c ∷ s) =
    let rest = trim_end_char d s in if nat_beq c d && is_empty rest then [] else c ∷ rest

digit_value : ℕ → Option ℕ
digit_value c = if leb b'0' c && leb c b'9' then some (c - b'0') else none

-- The digits read after the number so far; past the limit is an error, since the type overflows.
read_digits : ℕ → ℕ → Text → Option ℕ
unfolding digit_value
read_digits limit n [] = if leb n limit then some n else none
read_digits limit n (c ∷ s) = elim (digit_value c) [
  | none ↦ none
  | some d ↦ read_digits limit (n * 10 + d) s
]

-- At least one digit.
digits_of : ℕ → Text → Option ℕ
unfolding read_digits
digits_of limit [] = none
digits_of limit (c ∷ s) = read_digits limit 0 (c ∷ s)

-- `s.parse()` at an unsigned type with the greatest value `limit`: a plus may lead.
unfoldable pub parse_unsigned : ℕ → Text → Option ℕ
unfolding digits_of
parse_unsigned limit [] = none
parse_unsigned limit (c ∷ s) = if nat_beq c b'+' then digits_of limit s else digits_of limit (c ∷ s)

negated : Option ℕ → Option ℤ
negated none = none
negated (some zero) = some (pos 0)
negated (some (suc n)) = some (negsuc n)

plain : Option ℕ → Option ℤ
plain none = none
plain (some n) = some (pos n)

-- `s.parse()` at a signed type from `-(limit + 1)` to `limit`.
unfoldable pub parse_signed : ℕ → Text → Option ℤ
unfolding digits_of negated plain parse_unsigned
parse_signed limit [] = none
parse_signed limit (c ∷ s) =
    if nat_beq c b'-'
    then negated (digits_of (limit + 1) s)
    else plain (parse_unsigned limit (c ∷ s))

-- The greatest values of `u16`, `u32`, `i32` and `i64`.
abbrev pub u16_max : ℕ
u16_max = 65535

abbrev pub u32_max : ℕ
u32_max = 4294967295

abbrev pub i32_max : ℕ
i32_max = 2147483647

abbrev pub i64_max : ℕ
i64_max = 9223372036854775807

-- `{}` of a signed integer.
unfoldable pub show_int : ℤ → Text
unfolding show
show_int (pos n) = show n
show_int (negsuc n) = b'-' ∷ show (n + 1)

-- `s.split(d).next()`, which is always there.
unfoldable pub first_piece : ℕ → Text → Text
unfolding split_once
first_piece d s = elim (split_once d s) [ none ↦ s | some (before, after) ↦ before ]

-- `s.split_once(p)` of a text that is not empty.
unfoldable pub split_once_at : Text → Text → Option (Text × Text)
unfolding starts_with
split_once_at p [] = none
split_once_at p (c ∷ s) =
    let rest : Option (Text × Text) = elim (split_once_at p s) [
      | none ↦ none
      | some (before, after) ↦ some (c ∷ before, after)
    ] in
    if starts_with p (c ∷ s) then some ([], drop (length p) (c ∷ s)) else rest

-- `s.trim_end_matches(p)`, on fuel: a round takes at least one byte where `p` is not empty.
trim_end_rounds : ℕ → Text → Text → Text
trim_end_rounds zero p s = s
trim_end_rounds (suc fuel) p s =
    let rest = trim_end_rounds fuel p (take (length s - length p) s) in
    if ends_with p s then rest else s

unfoldable pub trim_end_matches : Text → Text → Text
unfolding trim_end_rounds ends_with
trim_end_matches p s = trim_end_rounds (length s) p s

-- White space of ASCII text, and the trims that take it away.
abbrev pub is_space : ℕ → Bool
is_space c = nat_beq c 32 || (leb 9 c && leb c 13)

unfoldable pub trim_start_space : Text → Text
trim_start_space [] = []
trim_start_space (c ∷ s) = let rest = trim_start_space s in if is_space c then rest else c ∷ s

unfoldable pub trim_end_space : Text → Text
trim_end_space [] = []
trim_end_space (c ∷ s) =
    let rest = trim_end_space s in if is_space c && is_empty rest then [] else c ∷ rest

-- `s.split_once(char::is_whitespace)`
unfoldable pub split_once_space : Text → Option (Text × Text)
split_once_space [] = none
split_once_space (c ∷ s) =
    let rest : Option (Text × Text) = elim (split_once_space s) [
      | none ↦ none
      | some (before, after) ↦ some (c ∷ before, after)
    ] in
    if is_space c then some ([], s) else rest
