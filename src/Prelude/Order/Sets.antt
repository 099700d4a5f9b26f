-- ===== src/Prelude/Order/Sets.antt =====
-- `BTreeSet`: the elements in ascending order.
use mathlib.Core.Path.{◌≡◌, refl, sym}
use mathlib.Core.Logic.{◌⊎◌, inl, inr}
use mathlib.Core.List.{List, [], ◌∷◌}
use ovid.Prelude.Tests.{Bool-cases, if◌then◌else◌}
use ovid.Prelude.Lists.{In, here, there}
use ovid.Prelude.Eq.{IsEq}
use ovid.Prelude.Order.Sort.{TotalOrder}

module _ {ℓ} {K : Type ℓ} ⦃e : IsEq K⦄ ⦃o : TotalOrder K⦄ where
  -- `set.insert(k)`
  unfoldable pub put_in : K → List K → List K
  put_in k [] = k ∷ []
  put_in k (j ∷ s) =
      let rest = put_in k s in if e.beq j k then j ∷ s else if o.le k j then k ∷ j ∷ s else j ∷ rest

  pub In-put_in : (k : K) (s : List K) {a : K} → In a (put_in k s) → (a ≡ k) ⊎ In a s
  unfolding put_in
  In-put_in k [] (here p) = inl p
  In-put_in k [] (there m) = elim m [ ]
  In-put_in k (j ∷ s) {a = a} m = elim (Bool-cases (e.beq j k)) [
    | inl t ↦ inr (rw t at m)
    | inr f ↦ elim (Bool-cases (o.le k j)) [
      | inl l ↦ first (rw (f, l) at m)
      | inr g ↦ later (rw (f, g) at m) (In-put_in k s)
    ]
  ]
    where
      first : In a (k ∷ j ∷ s) → (a ≡ k) ⊎ In a (j ∷ s)
      first (here p) = inl p
      first (there n) = inr n

      later :
          In a (j ∷ put_in k s) → (In a (put_in k s) → (a ≡ k) ⊎ In a s) → (a ≡ k) ⊎ In a (j ∷ s)
      later (here p) ih = inr (here p)
      later (there n) ih = elim (ih n) [ inl p ↦ inl p | inr q ↦ inr (there q) ]

  pub put_in-In : (k : K) (s : List K) → In k (put_in k s)
  unfolding put_in
  put_in-In k [] = here refl
  put_in-In k (j ∷ s) = elim (Bool-cases (e.beq j k)) [
    | inl t ↦ rw t (here (sym ((e.beq_iff j k).0 t)))
    | inr f ↦ elim (Bool-cases (o.le k j)) [
      | inl l ↦ rw (f, l) (here refl)
      | inr g ↦ rw (f, g) (there (put_in-In k s))
    ]
  ]

  pub put_in-keeps : (k : K) (s : List K) {a : K} → In a s → In a (put_in k s)
  unfolding put_in
  put_in-keeps k [] m = elim m [ ]
  put_in-keeps k (j ∷ s) m = elim (Bool-cases (e.beq j k)) [
    | inl t ↦ rw t m
    | inr f ↦ elim (Bool-cases (o.le k j)) [
      | inl l ↦ rw (f, l) (there m)
      | inr g ↦ rw (f, g) (later m (λ n. put_in-keeps k s n))
    ]
  ]
    where
      later : {a : K} → In a (j ∷ s) → (In a s → In a (put_in k s)) → In a (j ∷ put_in k s)
      later (here p) ih = here p
      later (there n) ih = there (ih n)
