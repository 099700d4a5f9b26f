-- ===== src/Prelude/Order/SortBy.antt =====
-- The stable `sort_by` of the standard library, by a key: equal keys keep their order.
use mathlib.Core.Path.{◌≡◌, refl, ap₂, sym, ◌∙◌}
use mathlib.Core.Logic.{◌⊎◌, inl, inr}
use mathlib.Core.Bool.{Bool, true}
use mathlib.Core.List.Perm
use mathlib.Core.List.{List, [], ◌∷◌, Perm, Permᴰ}
use native.Mathlib.Omega.{arith}
use ovid.Prelude.Tests.{if◌then◌else◌, Bool-cases}
use ovid.Prelude.Lists.{All, In, here, there}
use ovid.Prelude.Order.Sort.{TotalOrder}

module _ {ℓ} {A K : Type ℓ} ⦃o : TotalOrder K⦄ (key : A → K) where
  unfoldable pub insert_by : A → List A → List A
  insert_by a [] = a ∷ []
  insert_by a (x ∷ xs) = if o.le (key a) (key x) then a ∷ x ∷ xs else x ∷ insert_by a xs

  unfoldable pub sort_by : List A → List A
  unfolding insert_by
  sort_by [] = []
  sort_by (x ∷ xs) = insert_by x (sort_by xs)

  -- Equal keys stand for one element.
  abbrev pub HasKeys : List A → Type ℓ
  HasKeys xs = (a b : A) → In a xs → In b xs → key a ≡ key b → a ≡ b

  insert_by_comm :
      (a b : A) (xs : List A)
      → (key a ≡ key b → a ≡ b)
      → insert_by a (insert_by b xs) ≡ insert_by b (insert_by a xs)
  unfolding insert_by
  insert_by_comm a b [] h = elim (Bool-cases (o.le (key a) (key b))) [
    | inl t ↦ elim (Bool-cases (o.le (key b) (key a))) [
      | inl u ↦
          let e = h (o.le_antisymm (key a) (key b) t u) in
          rw (t, u) (ap₂ (λ x y. x ∷ y ∷ []) e (sym e))
      | inr u ↦ rw (t, u) refl
    ]
    | inr t ↦ elim (o.le_total (key a) (key b)) [ inl u ↦ absurd (cc) | inr u ↦ rw (t, u) refl ]
  ]
  insert_by_comm a b (x ∷ xs) h = ground (
    arith,
    o.le_total (key a) (key b),
    o.le_total (key b) (key x),
    o.le_total (key a) (key x),
    λ (p : o.le (key a) (key b) ≡ true) (q : o.le (key b) (key a) ≡ true).
        h (o.le_antisymm (key a) (key b) p q),
    o.le_trans (key a) (key b) (key x),
    o.le_trans (key b) (key a) (key x),
    insert_by_comm a b xs h,
  )

  In-Permᴰ : {a : A} {xs ys : List A} → Permᴰ xs ys → In a ys → In a xs
  In-Permᴰ Permᴰ.nil m = m
  In-Permᴰ (Permᴰ.cons e p) (here q) = here (q ∙ sym e)
  In-Permᴰ (Permᴰ.cons e p) (there m) = there (In-Permᴰ p m)
  In-Permᴰ (Permᴰ.swap e e') (here q) = there (here (q ∙ sym e'))
  In-Permᴰ (Permᴰ.swap e e') (there (here q)) = here (q ∙ sym e)
  In-Permᴰ (Permᴰ.swap e e') (there (there m)) = there (there m)
  In-Permᴰ (Permᴰ.trans p q) m = In-Permᴰ p (In-Permᴰ q m)

  -- Where the keys are distinct, the result forgets the order of the input.
  pub sort_by-eq_of_perm : {xs ys : List A} → HasKeys xs → Permᴰ xs ys → sort_by xs ≡ sort_by ys
  unfolding sort_by
  sort_by-eq_of_perm h Permᴰ.nil = refl
  sort_by-eq_of_perm h (Permᴰ.cons e p) =
      ap₂ insert_by e (sort_by-eq_of_perm (λ a b m n. h a b (there m) (there n)) p)
  sort_by-eq_of_perm h (Permᴰ.swap {a = a} {b = b} {l = l} e e') =
      insert_by_comm a b (sort_by l) (h a b (here refl) (there (here refl)))
      ∙ ap₂ (λ u v. insert_by u (insert_by v (sort_by l))) e' e
  sort_by-eq_of_perm h (Permᴰ.trans p q) =
      sort_by-eq_of_perm h p ∙ sort_by-eq_of_perm (λ a b m n. h a b (In-Permᴰ p m) (In-Permᴰ p n)) q

-- The stable sort by a comparator: `le a b` where `a` may stand before `b`.
module _ {ℓ} {A : Type ℓ} (le : A → A → Bool) where
  unfoldable pub insert_with : A → List A → List A
  insert_with a [] = a ∷ []
  insert_with a (x ∷ xs) = if le a x then a ∷ x ∷ xs else x ∷ insert_with a xs

  unfoldable pub sort_with : List A → List A
  unfolding insert_with
  sort_with [] = []
  sort_with (x ∷ xs) = insert_with x (sort_with xs)

  insert_with-perm : (a : A) (xs : List A) → Perm (insert_with a xs) (a ∷ xs)
  unfolding insert_with
  insert_with-perm a [] = Perm.refl (a ∷ [])
  insert_with-perm a (x ∷ xs) = elim (Bool-cases (le a x)) [
    | inl t ↦ rw t (Perm.refl (a ∷ x ∷ xs))
    | inr f ↦ rw f (Perm.trans (Perm.cons x (insert_with-perm a xs)) (Perm.swap a x xs))
  ]

  pub sort_with-perm : (xs : List A) → Perm (sort_with xs) xs
  unfolding sort_with
  sort_with-perm [] = Perm.refl []
  sort_with-perm (x ∷ xs) =
      Perm.trans (insert_with-perm x (sort_with xs)) (Perm.cons x (sort_with-perm xs))

  -- No element may have to stand before an earlier one.
  abbrev pub InOrder : List A → Type 0
  InOrder [] = Unit
  InOrder (x ∷ xs) = All (λ y. le x y ≡ true) xs × InOrder xs

  All-insert_with :
      (P : A → Type 0) (a : A) (xs : List A) → P a → All P xs → All P (insert_with a xs)
  unfolding insert_with
  All-insert_with P a [] p h = (p, tt)
  All-insert_with P a (x ∷ xs) p h = elim (Bool-cases (le a x)) [
    | inl t ↦ rw t (p, h)
    | inr f ↦ rw f (h.0, All-insert_with P a xs p h.1)
  ]

  module _ (total : (a b : A) → (le a b ≡ true) ⊎ (le b a ≡ true))
      (trans : (a b c : A) → le a b ≡ true → le b c ≡ true → le a c ≡ true) where
    All-le_trans :
        (a x : A) (xs : List A)
        → le a x ≡ true
        → All (λ y. le x y ≡ true) xs
        → All (λ y. le a y ≡ true) xs
    All-le_trans a x [] h k = tt
    All-le_trans a x (y ∷ ys) h k = (trans a x y h k.0, All-le_trans a x ys h k.1)

    insert_with-InOrder : (a : A) (xs : List A) → InOrder xs → InOrder (insert_with a xs)
    unfolding insert_with
    insert_with-InOrder a [] s = (tt, tt)
    insert_with-InOrder a (x ∷ xs) s = elim (Bool-cases (le a x)) [
      | inl t ↦ rw t ((t, All-le_trans a x xs t s.0), s)
      | inr f ↦
          let back : le x a ≡ true = elim (total a x) [ inl t ↦ absurd (cc) | inr u ↦ u ] in
          rw f (All-insert_with (λ y. le x y ≡ true) a xs back s.0, insert_with-InOrder a xs s.1)
    ]

    pub sort_with-InOrder : (xs : List A) → InOrder (sort_with xs)
    unfolding sort_with
    sort_with-InOrder [] = tt
    sort_with-InOrder (x ∷ xs) = insert_with-InOrder x (sort_with xs) (sort_with-InOrder xs)
