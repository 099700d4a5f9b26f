-- ===== src/Observer/Dns/Escapes/Quotes.antt =====
-- crates/ovid-observer/src/dns.rs: the quoted strings of a line.
use mathlib.Core.List.{append-nil}
use ovid.Prelude.{
  ℕ, zero, suc, ◌≤◌, ◌≡◌, refl, ap, subst, Bool, true, false, not, ◌&&◌, some, List, [], ◌∷◌, ◌++◌,
  map, Text, length, all, All, nat_beq, arith, length-append,
}
use ovid.Observer.Dns.Escapes.{quoted, extract, extract_quoted_strings}

-- A text that may stand between quotes: a quote in it follows a backslash, and so does no end.
abbrev pub is_body : Bool → Text → Bool
is_body true [] = false
is_body false [] = true
is_body true (c ∷ s) = is_body false s
is_body false (c ∷ s) = not (nat_beq c 34) && is_body (nat_beq c 92) s

abbrev pub no_quote : Text → Bool
no_quote s = all (λ c. not (nat_beq c 34)) s

-- A text without quotes, and the body of the string after it.
pub record Part : Type 0 where
  pub before : Text
  pub body : Text

abbrev pub IsPart : Part → Type 0
IsPart p = (no_quote p.before ≡ true) × (is_body false p.body ≡ true)

abbrev pub line : List Part → Text → Text
line [] last = last
line (p ∷ parts) last = p.before ++ (34 ∷ (p.body ++ (34 ∷ line parts last)))

quoted-body :
    (e : Bool) (s after : Text)
    → is_body e s ≡ true
    → quoted e (s ++ (34 ∷ after)) ≡ some (s, after)
unfolding quoted
quoted-body true [] after h = absurd (cc)
quoted-body false [] after h = refl
quoted-body true (c ∷ s) after h = rw (quoted-body false s after h) refl
quoted-body false (c ∷ s) after h =
    let plain : nat_beq c 34 ≡ false = ground arith in
    let next = quoted-body (nat_beq c 92) s after (ground arith) in rw (plain, next) refl

-- What the loop finds, with any fuel that is enough.
abbrev Extracts : Text → List Text → Type 0
Extracts t r = (fuel : ℕ) → length t ≤ fuel → extract fuel t ≡ r

extract-plain :
    (c : ℕ) (t : Text) (r : List Text) → nat_beq c 34 ≡ false → Extracts t r → Extracts (c ∷ t) r
unfolding extract
extract-plain c t r n h zero l = absurd (omega arith)
extract-plain c t r n h (suc fuel) l = rw (n, extract) (h fuel (omega arith))

extract-before :
    (s t : Text) (r : List Text) → no_quote s ≡ true → Extracts t r → Extracts (s ++ t) r
extract-before [] t r n h = h
extract-before (c ∷ s) t r n h =
    extract-plain c (s ++ t) r (ground arith) (extract-before s t r (ground arith) h)

extract-body :
    (s after : Text) (r : List Text)
    → is_body false s ≡ true
    → Extracts after r
    → Extracts (34 ∷ (s ++ (34 ∷ after))) (s ∷ r)
unfolding extract
extract-body s after r b h zero l = absurd (omega arith)
extract-body s after r b h (suc fuel) l =
    let size = length-append s (34 ∷ after) in
    rw (quoted-body false s after b) (ap (λ x. s ∷ x) (h fuel (omega (arith, size))))

extract-none : Extracts [] []
unfolding extract
extract-none zero l = refl
extract-none (suc fuel) l = refl

extract-line :
    (parts : List Part) (last : Text)
    → All IsPart parts
    → no_quote last ≡ true
    → Extracts (line parts last) (map (λ p. p.body) parts)
extract-line [] last h n =
    subst (λ t. Extracts t []) (append-nil last) (extract-before last [] [] n extract-none)
extract-line (p ∷ parts) last h n =
    extract-before p.before _ _ h.0.0
      (extract-body p.body _ _ h.0.1 (extract-line parts last h.1 n))

-- The quoted strings of a line are found in their order, escapes kept, also where an escaped
-- quote or backslash stands inside.
pub extract_quoted_strings-line :
    (parts : List Part) (last : Text)
    → All IsPart parts
    → no_quote last ≡ true
    → extract_quoted_strings (line parts last) ≡ map (λ p. p.body) parts
unfolding extract_quoted_strings
extract_quoted_strings-line parts last h n =
    extract-line parts last h n (length (line parts last)) (omega arith)
