-- ===== src/Prelude/Order/Lex.antt =====
-- The lexicographic order of lists, `Ord` of `String` and `Vec`: of two texts it compares the bytes.
use mathlib.Core.Path.{◌≡◌, refl}
use mathlib.Core.Logic.{◌⊎◌, inl, inr}
use mathlib.Core.Bool.{Bool, true, false, false≢true}
use mathlib.Core.List.{List, [], ◌∷◌}
use native.Mathlib.Omega.{arith}
use Prim.Native.Nat.{ℕ}
use ovid.Prelude.Tests.{if◌then◌else◌}
use ovid.Prelude.Eq.{IsEq, nat_eq}
use ovid.Prelude.Order.Sort.{TotalOrder, nat_order}

module _ {ℓ} {A : Type ℓ} ⦃e : IsEq A⦄ ⦃o : TotalOrder A⦄ where
  unfoldable pub lex_le : List A → List A → Bool
  lex_le [] ys = true
  lex_le (x ∷ xs) [] = false
  lex_le (x ∷ xs) (y ∷ ys) = if e.beq x y then lex_le xs ys else o.le x y

  pub lex_le_total : (xs ys : List A) → (lex_le xs ys ≡ true) ⊎ (lex_le ys xs ≡ true)
  unfolding lex_le
  lex_le_total [] ys = inl refl
  lex_le_total (x ∷ xs) [] = inr refl
  lex_le_total (x ∷ xs) (y ∷ ys) =
      ground (arith, e.beq_iff x y, e.beq_iff y x, o.le_total x y, lex_le_total xs ys)

  pub lex_le_trans :
      (xs ys zs : List A) → lex_le xs ys ≡ true → lex_le ys zs ≡ true → lex_le xs zs ≡ true
  unfolding lex_le
  lex_le_trans [] ys zs h k = refl
  lex_le_trans (x ∷ xs) [] zs h k = absurd (false≢true h)
  lex_le_trans (x ∷ xs) (y ∷ ys) [] h k = absurd (false≢true k)
  lex_le_trans (x ∷ xs) (y ∷ ys) (z ∷ zs) h k = ground (
    arith,
    e.beq_iff x y,
    e.beq_iff y z,
    e.beq_iff x z,
    o.le_trans x y z,
    o.le_antisymm x y,
    lex_le_trans xs ys zs,
  )

  pub lex_le_antisymm : (xs ys : List A) → lex_le xs ys ≡ true → lex_le ys xs ≡ true → xs ≡ ys
  unfolding lex_le
  lex_le_antisymm [] [] h k = refl
  lex_le_antisymm [] (y ∷ ys) h k = absurd (false≢true k)
  lex_le_antisymm (x ∷ xs) [] h k = absurd (false≢true h)
  lex_le_antisymm (x ∷ xs) (y ∷ ys) h k =
      ground (arith, e.beq_iff x y, e.beq_iff y x, o.le_antisymm x y, lex_le_antisymm xs ys)

  instance abbrev pub lex_order : TotalOrder (List A)
  lex_order = record {
    le = lex_le;
    le_total = lex_le_total;
    le_trans = lex_le_trans;
    le_antisymm = lex_le_antisymm;
  }

-- The order of texts.
instance abbrev pub text_order : TotalOrder (List ℕ)
text_order = lex_order
