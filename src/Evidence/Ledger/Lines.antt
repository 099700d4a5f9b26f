-- ===== src/Evidence/Ledger/Lines.antt =====
-- crates/ovid-evidence/src/ledger.rs: the lines of a file, and what a new line adds to them.
use ovid.Prelude.{
  ℕ, ◌≡◌, refl, ap, ◌∙◌, Bool, true, false, not, ◌&&◌, ◌||◌, none, some, List, [], ◌∷◌, ◌++◌, Text,
  nat_beq, is_empty, all, arith, if◌then◌else◌,
}
use ovid.Evidence.Ledger.{File, lines, in_line, is_newline, line_of, written}

-- A text that is empty or ends with a newline.
abbrev pub ends_line : Text → Bool
ends_line [] = true
ends_line (c ∷ []) = is_newline c
ends_line (c ∷ d ∷ s) = ends_line (d ∷ s)

-- A file that does not exist, or whose last line is ended.
abbrev pub is_ended : File → Bool
is_ended none = true
is_ended (some text) = ends_line text

-- No newline, and no carriage return.
abbrev pub is_one_line : Text → Bool
is_one_line t = all (λ c. not (nat_beq c 10 || nat_beq c 13)) t

pub lines-line_of : (t : Text) → is_one_line t ≡ true → lines (line_of t) ≡ t ∷ []
unfolding lines
lines-line_of [] h = refl
lines-line_of (c ∷ t) h = rw (lines-line_of t (ground (arith, h))) (ground (arith, h))

in_line-append :
    (c : ℕ) (xs ys : List Text) → is_empty xs ≡ false → in_line c (xs ++ ys) ≡ in_line c xs ++ ys
in_line-append c [] ys h = absurd (cc)
in_line-append c (x ∷ xs) ys h = refl

in_line-full : (c : ℕ) (xs : List Text) → is_empty (in_line c xs) ≡ false
in_line-full c [] = refl
in_line-full c (x ∷ xs) = refl

lines-full : (c : ℕ) (s : Text) → is_empty (lines (c ∷ s)) ≡ false
unfolding lines
lines-full c [] = ground (arith)
lines-full c (d ∷ s) = ground (arith, lines-full d s, in_line-full c (lines (d ∷ s)))

-- After a text that ends its last line, the lines of two texts are those of the one and the other.
pub lines-append : (t s : Text) → ends_line t ≡ true → lines (t ++ s) ≡ lines t ++ lines s
unfolding lines
lines-append [] s h = refl
lines-append (c ∷ []) s h = rw h refl
lines-append (c ∷ d ∷ t) s h =
    rw (lines-append (d ∷ t) s h) (by_tests (is_newline c) (nat_beq c 13 && is_newline d))
  where
    by_tests :
        (a b : Bool)
        → (if a
            then [] ∷ (lines (d ∷ t) ++ lines s)
            else if b
            then lines (d ∷ t) ++ lines s
            else in_line c (lines (d ∷ t) ++ lines s))
          ≡ (if a
              then [] ∷ lines (d ∷ t)
              else if b
              then lines (d ∷ t)
              else in_line c (lines (d ∷ t)))
            ++ lines s
    by_tests true b = refl
    by_tests false true = refl
    by_tests false false = in_line-append c (lines (d ∷ t)) (lines s) (lines-full d t)

ends_line-append : (t s : Text) → ends_line (line_of s) ≡ true → ends_line (t ++ line_of s) ≡ true
ends_line-append [] s h = h
ends_line-append (c ∷ []) [] h = h
ends_line-append (c ∷ []) (d ∷ s) h = h
ends_line-append (c ∷ d ∷ t) s h = ends_line-append (d ∷ t) s h

ends_line-line_of : (s : Text) → ends_line (line_of s) ≡ true
ends_line-line_of [] = refl
ends_line-line_of (c ∷ []) = refl
ends_line-line_of (c ∷ d ∷ s) = ends_line-line_of (d ∷ s)

-- A file to which a line was written ends its last line.
pub written-is_ended : (f : File) (t : Text) → is_ended (written f (line_of t)) ≡ true
unfolding written
written-is_ended none t = ends_line-line_of t
written-is_ended (some old) t = ends_line-append old t (ends_line-line_of t)

-- A text of one line is one more line of a file that ends its last.
pub lines-written :
    (old t : Text)
    → ends_line old ≡ true
    → is_one_line t ≡ true
    → lines (old ++ line_of t) ≡ lines old ++ (t ∷ [])
lines-written old t e h =
    lines-append old (line_of t) e ∙ ap (λ ls. lines old ++ ls) (lines-line_of t h)
