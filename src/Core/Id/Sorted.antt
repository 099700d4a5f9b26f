-- ===== src/Core/Id/Sorted.antt =====
-- crates/ovid-core/src/id.rs: tokens have a fixed width and sort as the numbers they encode.
use native.Mathlib.Decide.{dec_lt}
use native.Mathlib.Nat.{pow-suc}
use ovid.Prelude.{
  ℕ, zero, suc, ◌/◌, ◌%◌, ◌^◌, ◌≤◌, ◌<◌, ◌≡◌, refl, sym, ap, ◌∙◌, ◌≢◌, Bool, true, not, ◌&&◌, ◌||◌,
  [], ◌∷◌, ◌++◌, Text, lit, arith, length, length-append, nat_beq, ltb, all, text_eq, nat_eq,
  if◌then◌else◌,
}
use ovid.Prelude.Order.{text_order, lex_le, nat_order}
use ovid.Core.Id.{IdGenerator, digit, digit_at, encode_base32, next, kind, token}

-- A token has the width that is asked for.
pub length-encode_base32 : (value width : ℕ) → length (encode_base32 value width) ≡ width
unfolding encode_base32
length-encode_base32 value zero = refl
length-encode_base32 value (suc width) = omega (
  arith,
  length-append (encode_base32 (value / 32) width) (digit value ∷ []),
  length-encode_base32 (value / 32) width,
)

abbrev head_or : ℕ → Text → ℕ
head_or d [] = d
head_or d (c ∷ s) = c

abbrev tail_of : Text → Text
tail_of [] = []
tail_of (c ∷ s) = s

-- Strictly before, among texts of one length.
pub data Before : Text → Text → Type 0 where
  at : {c d : ℕ} {s t : Text} → c < d → length s ≡ length t → Before (c ∷ s) (d ∷ t)
  after : {c : ℕ} {s t : Text} → Before s t → Before (c ∷ s) (c ∷ t)

Before-append : {s t : Text} (c d : ℕ) → Before s t → Before (s ++ (c ∷ [])) (t ++ (d ∷ []))
Before-append c d (at {s = s} {t = t} h e) =
    at h (omega (arith, e, length-append s (c ∷ []), length-append t (d ∷ [])))
Before-append c d (after b) = after (Before-append c d b)

Before-last : (s : Text) {c d : ℕ} → c < d → Before (s ++ (c ∷ [])) (s ++ (d ∷ []))
Before-last [] h = at h refl
Before-last (x ∷ s) h = after (Before-last s h)

Before-prefix : (p : Text) {s t : Text} → Before s t → Before (p ++ s) (p ++ t)
Before-prefix [] b = b
Before-prefix (x ∷ p) b = after (Before-prefix p b)

pub Before-le : {s t : Text} → Before s t → (text_order.le s t ≡ true) × (s ≢ t)
unfolding lex_le
Before-le (at {c = c} {d = d} {s = s} {t = t} h e) =
    (ground arith, λ p. absurd (omega (arith, ap (head_or 0) p)))
Before-le (after {c = c} {s = s} {t = t} b) =
    let (l, n) = Before-le b in (ground (arith, l), λ p. n (ap tail_of p))

-- A test of every index below a bound.
passes : (ℕ → Bool) → ℕ → Bool
passes test zero = true
passes test (suc bound) = passes test bound && test bound

passes_sound :
    (test : ℕ → Bool) (bound i : ℕ) → i < bound → passes test bound ≡ true → test i ≡ true
unfolding passes
passes_sound test zero i less ok = absurd (omega arith)
passes_sound test (suc bound) i less ok = ground (arith, passes_sound test bound i)

abbrev rises : ℕ → ℕ → Bool
rises j i = not (ltb i j) || ltb (digit_at i) (digit_at j)

-- The table of digits ascends.
table_rises : passes (λ j. passes (rises j) 32) 32 ≡ true
unfolding passes digit_at lit
table_rises = refl

digit-lt : (a b : ℕ) → a % 32 < b % 32 → digit a < digit b
unfolding digit
digit-lt a b h =
    let row = passes_sound (λ j. passes (rises j) 32) 32 (b % 32) (omega arith) table_rises in
    let cell = passes_sound (rises (b % 32)) 32 (a % 32) (omega arith) row in ground (arith, cell)

-- Of two numbers that fit the width the smaller one has the earlier token.
encode-Before :
    (a b width : ℕ)
    → a < b
    → b < 32 ^ width
    → Before (encode_base32 a width) (encode_base32 b width)
unfolding encode_base32
encode-Before a b zero h k = absurd (omega arith)
encode-Before a b (suc width) h k = elim (dec_lt (a / 32) (b / 32)) [
  | yes l ↦
      Before-append (digit a) (digit b)
        (encode-Before (a / 32) (b / 32) width l (omega (arith, pow-suc 32 width)))
  | no n ↦
      let same : a / 32 ≡ b / 32 = omega arith in
      rw same (Before-last (encode_base32 (b / 32) width) (digit-lt a b (omega arith)))
]

Before-append_left :
    (x y : Text) {s t : Text} → Before s t → length x ≡ length y → Before (s ++ x) (t ++ y)
Before-append_left x y (at {s = s} {t = t} h e) q =
    at h (omega (arith, e, q, length-append s x, length-append t y))
Before-append_left x y (after b) q = after (Before-append_left x y b q)

token-Before :
    (m n i j : ℕ) → m ≤ n → n < 32 ^ 10 → i < j → j < 32 ^ 8 → Before (token m i) (token n j)
token-Before m n i j h k l q = elim (dec_lt m n) [
  | yes early ↦
      Before-append_left (encode_base32 i 8) (encode_base32 j 8) (encode-Before m n 10 early k)
        (length-encode_base32 i 8 ∙ sym (length-encode_base32 j 8))
  | no same ↦
      let e : m ≡ n = omega arith in
      rw e (Before-prefix (encode_base32 n 10) (encode-Before i j 8 l q))
]

abbrev pub stamp : IdGenerator → ℕ → ℕ
stamp g now = if g.deterministic then 0 else now

-- Ids sort by age: of two ids of one kind, where the second is made at no earlier a time and with a
-- later counter, and both fit the widths of their fields, the first sorts before the second and
-- differs from it.
next-sorted :
    (g h : IdGenerator) (kind : Text) (m n : ℕ)
    → stamp g m ≤ stamp h n
    → stamp h n < 32 ^ 10
    → g.counter < h.counter
    → h.counter < 32 ^ 8
    → (text_order.le (next g kind m).0 (next h kind n).0 ≡ true)
      × ((next g kind m).0 ≢ (next h kind n).0)
unfolding next
next-sorted g h kind m n a b c d = Before-le (
    Before-prefix kind
      (Before-prefix (lit ":") (token-Before (stamp g m) (stamp h n) g.counter h.counter a b c d)))

kind-append :
    (k rest : Text) → all (λ c. not (nat_beq c b':')) k ≡ true → kind (k ++ (b':' ∷ rest)) ≡ k
unfolding kind
kind-append [] rest h = refl
kind-append (c ∷ k) rest h = ground (arith, kind-append k rest)

-- The kind of a fresh id is the prefix it was made with, where that holds no colon.
kind-next :
    (g : IdGenerator) (k : Text) (now : ℕ)
    → all (λ c. not (nat_beq c b':')) k ≡ true
    → kind (next g k now).0 ≡ k
unfolding next lit
kind-next g k now h = kind-append k (token (stamp g now) g.counter) h
