-- ===== src/Prelude/Strings/Decimal.antt =====
-- The decimal text of a number determines the number, and holds digits only.
use Prim.Native.Nat.{ℕ, zero, suc, ◌+◌, ◌-◌, ◌*◌, ◌/◌, ◌<◌}
use mathlib.Core.Path.{◌≡◌, refl, ap, sym, ◌∙◌}
use mathlib.Core.Logic.{inl, inr}
use mathlib.Core.Bool.{Bool, true, ◌&&◌}
use mathlib.Core.List.{[], ◌∷◌, ◌++◌, append-nil}
use native.Mathlib.Omega.{arith}
use ovid.Prelude.Tests.{ltb, leb, Bool-cases}
use ovid.Prelude.Lists.{all}
use ovid.Prelude.Strings.{Text, digits_from, reverse_onto, show}

-- The number of a list of digits, least first.
abbrev value : Text → ℕ
value [] = 0
value (c ∷ cs) = (c - 48) + 10 * value cs

value-digits_from : (fuel n : ℕ) → n < fuel → value (digits_from fuel n) ≡ n
unfolding digits_from
value-digits_from zero n h = absurd (omega arith)
value-digits_from (suc fuel) n h = elim (Bool-cases (ltb n 10)) [
  | inl t ↦ rw t (omega arith)
  | inr f ↦
      let big : 9 < n = ground arith in
      rw f (omega (arith, value-digits_from fuel (n / 10) (omega arith)))
]

reverse_onto-reverse :
    (acc ys xs : Text) → reverse_onto acc (reverse_onto ys xs) ≡ reverse_onto (xs ++ acc) ys
unfolding reverse_onto
reverse_onto-reverse acc ys [] = refl
reverse_onto-reverse acc ys (c ∷ cs) = reverse_onto-reverse acc (c ∷ ys) cs

reverse_twice : (xs : Text) → reverse_onto [] (reverse_onto [] xs) ≡ xs
unfolding reverse_onto
reverse_twice xs = reverse_onto-reverse [] [] xs ∙ append-nil xs

pub show-injective : (m n : ℕ) → show m ≡ show n → m ≡ n
unfolding show
show-injective m n h =
    let p =
      sym (reverse_twice (digits_from (suc m) m))
      ∙ (ap (reverse_onto []) h ∙ reverse_twice (digits_from (suc n) n)) in
    omega (
      arith,
      ap value p,
      value-digits_from (suc m) m (omega arith),
      value-digits_from (suc n) n (omega arith),
    )

abbrev pub is_digit : ℕ → Bool
is_digit c = leb 48 c && leb c 57

digits_from-digits : (fuel n : ℕ) → all is_digit (digits_from fuel n) ≡ true
unfolding digits_from
digits_from-digits zero n = refl
digits_from-digits (suc fuel) n = ground (arith, digits_from-digits fuel (n / 10))

reverse_onto-all :
    (p : ℕ → Bool) (acc xs : Text)
    → all p acc ≡ true
    → all p xs ≡ true
    → all p (reverse_onto acc xs) ≡ true
unfolding reverse_onto
reverse_onto-all p acc [] h k = h
reverse_onto-all p acc (c ∷ cs) h k = reverse_onto-all p (c ∷ acc) cs (ground arith) (ground arith)

pub show-digits : (n : ℕ) → all is_digit (show n) ≡ true
unfolding show
show-digits n =
    reverse_onto-all is_digit [] (digits_from (suc n) n) refl (digits_from-digits (suc n) n)
