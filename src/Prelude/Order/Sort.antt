-- ===== src/Prelude/Order/Sort.antt =====
-- A total order as an interface, and insertion sort (what the stable `slice::sort` returns).
use mathlib.Core.HLevel.{hedberg}
use mathlib.Core.List.{Perm, Permᴰ, List-discrete}
use mathlib.Core.List.Perm
use mathlib.Core.Logic.{∥∥₁_elim}
use mathlib.Core.Path.{◌≡◌, refl, ap₂, ◌∙◌}
use mathlib.Core.Logic.{◌⊎◌, inl, inr}
use mathlib.Core.Bool.{Bool, true, false}
use mathlib.Core.List.{List, [], ◌∷◌}
use Prim.Native.Nat.{ℕ}
use native.Mathlib.Omega.{arith}
use ovid.Prelude.Tests.{leb, if◌then◌else◌, Bool-cases}
use ovid.Prelude.Lists.{All}

pub record TotalOrder {ℓ} (A : Type ℓ) : Type ℓ where
  pub le : A → A → Bool
  pub le_total : (a b : A) → (le a b ≡ true) ⊎ (le b a ≡ true)
  pub le_trans : (a b c : A) → le a b ≡ true → le b c ≡ true → le a c ≡ true
  pub le_antisymm : (a b : A) → le a b ≡ true → le b a ≡ true → a ≡ b

pub leb_total : (a b : ℕ) → (leb a b ≡ true) ⊎ (leb b a ≡ true)
leb_total a b = ground arith

pub leb_trans : (a b c : ℕ) → leb a b ≡ true → leb b c ≡ true → leb a c ≡ true
leb_trans a b c h k = ground arith

pub leb_antisymm : (a b : ℕ) → leb a b ≡ true → leb b a ≡ true → a ≡ b
leb_antisymm a b h k = ground arith

instance abbrev pub nat_order : TotalOrder ℕ
nat_order = record {
  le = leb;
  le_total = leb_total;
  le_trans = leb_trans;
  le_antisymm = leb_antisymm;
}

module _ {ℓ} {A : Type ℓ} ⦃o : TotalOrder A⦄ where
  pub le_refl : (a : A) → o.le a a ≡ true
  le_refl a = elim (o.le_total a a) [ inl h ↦ h | inr h ↦ h ]

  unfoldable pub insert_sorted : A → List A → List A
  insert_sorted a [] = a ∷ []
  insert_sorted a (x ∷ xs) = if o.le a x then a ∷ x ∷ xs else x ∷ insert_sorted a xs

  unfoldable pub sort : List A → List A
  unfolding insert_sorted
  sort [] = []
  sort (x ∷ xs) = insert_sorted x (sort xs)

  pub le-of_le_false : (a b : A) → o.le a b ≡ false → o.le b a ≡ true
  le-of_le_false a b h = elim (o.le_total a b) [ inl t ↦ absurd (cc) | inr t ↦ t ]

  insert_sorted-perm : (a : A) (xs : List A) → Perm (insert_sorted a xs) (a ∷ xs)
  unfolding insert_sorted
  insert_sorted-perm a [] = Perm.refl (a ∷ [])
  insert_sorted-perm a (x ∷ xs) = elim (Bool-cases (o.le a x)) [
    | inl t ↦ rw t (Perm.refl (a ∷ x ∷ xs))
    | inr f ↦ rw f (Perm.trans (Perm.cons x (insert_sorted-perm a xs)) (Perm.swap a x xs))
  ]

  -- Sorting keeps the elements, each as often as it stood there.
  pub sort-perm : (xs : List A) → Perm (sort xs) xs
  unfolding sort
  sort-perm [] = Perm.refl []
  sort-perm (x ∷ xs) = Perm.trans (insert_sorted-perm x (sort xs)) (Perm.cons x (sort-perm xs))

  -- Two insertions commute, so the order of the input is forgotten.
  insert_sorted_comm :
      (a b : A) (xs : List A)
      → insert_sorted a (insert_sorted b xs) ≡ insert_sorted b (insert_sorted a xs)
  unfolding insert_sorted
  insert_sorted_comm a b [] = elim (o.le_total a b) [
    | inl h ↦ ground (arith, o.le_antisymm a b)
    | inr h ↦ ground (arith, o.le_antisymm a b)
  ]
  insert_sorted_comm a b (x ∷ xs) = ground (
    arith,
    o.le_total a b,
    o.le_total b x,
    o.le_total a x,
    o.le_antisymm a b,
    o.le_trans a b x,
    o.le_trans b a x,
    insert_sorted_comm a b xs,
  )

  sort-Permᴰ : {xs ys : List A} → Permᴰ xs ys → sort xs ≡ sort ys
  unfolding sort
  sort-Permᴰ Permᴰ.nil = refl
  sort-Permᴰ (Permᴰ.cons {l₁ = xs} {l₂ = ys} e p) = cc (ap₂ insert_sorted e (sort-Permᴰ p))
  sort-Permᴰ (Permᴰ.swap {a = a} {b = b} {l = l} e e') =
      insert_sorted_comm a b (sort l) ∙ ap₂ (λ u v. insert_sorted u (insert_sorted v (sort l))) e' e
  sort-Permᴰ (Permᴰ.trans p q) = sort-Permᴰ p ∙ sort-Permᴰ q

  -- Two lists with the same elements sort to one list.
  pub sort-eq_of_perm : {xs ys : List A} → Discrete A → Perm xs ys → sort xs ≡ sort ys
  sort-eq_of_perm dec p = ∥∥₁_elim p (hedberg (List-discrete dec) _ _) sort-Permᴰ

  -- Each element is at most every later one.
  abbrev pub IsSorted : List A → Type 0
  IsSorted [] = Unit
  IsSorted (x ∷ xs) = All (λ y. o.le x y ≡ true) xs × IsSorted xs

  All-insert_sorted :
      (P : A → Type 0) (a : A) (xs : List A) → P a → All P xs → All P (insert_sorted a xs)
  unfolding insert_sorted
  All-insert_sorted P a [] p h = (p, tt)
  All-insert_sorted P a (x ∷ xs) p h = elim (Bool-cases (o.le a x)) [
    | inl t ↦ rw t (p, h)
    | inr f ↦ rw f (h.0, All-insert_sorted P a xs p h.1)
  ]

  All-trans :
      (a x : A) (xs : List A)
      → o.le a x ≡ true
      → All (λ y. o.le x y ≡ true) xs
      → All (λ y. o.le a y ≡ true) xs
  All-trans a x [] h k = tt
  All-trans a x (y ∷ ys) h k = (o.le_trans a x y h k.0, All-trans a x ys h k.1)

  insert_sorted-IsSorted : (a : A) (xs : List A) → IsSorted xs → IsSorted (insert_sorted a xs)
  unfolding insert_sorted
  insert_sorted-IsSorted a [] s = (tt, tt)
  insert_sorted-IsSorted a (x ∷ xs) s = elim (Bool-cases (o.le a x)) [
    | inl t ↦ rw t ((t, All-trans a x xs t s.0), s)
    | inr f ↦ rw f (
      All-insert_sorted (λ y. o.le x y ≡ true) a xs (le-of_le_false a x f) s.0,
      insert_sorted-IsSorted a xs s.1,
    )
  ]

  pub sort-IsSorted : (xs : List A) → IsSorted (sort xs)
  unfolding sort
  sort-IsSorted [] = tt
  sort-IsSorted (x ∷ xs) = insert_sorted-IsSorted x (sort xs) (sort-IsSorted xs)
