-- ===== src/Prelude/Order/Tree.antt =====
-- `BTreeMap`: an association list whose keys ascend. `HashMap`s of the program, whose order of
-- iteration nothing of the model reads, are kept the same way.
use mathlib.Core.Path.{◌≡◌, refl, ap, sym, ◌∙◌}
use mathlib.Core.Logic.{◌⊎◌, inl, inr}
use mathlib.Core.Bool.{true, false, false≢true}
use mathlib.Core.List.{List, [], ◌∷◌}
use mathlib.Core.Option.{Option, none, some}
use native.Mathlib.Omega.{arith}
use ovid.Prelude.Tests.{if◌then◌else◌, Bool-cases}
use ovid.Prelude.Eq.{IsEq, beq-false}
use ovid.Prelude.Order.Sort.{TotalOrder, le-of_le_false}

module _ {ℓ} {K V : Type ℓ} where
  abbrev pub values : List (K × V) → List V
  values [] = []
  values ((k, v) ∷ m) = v ∷ values m

  abbrev pub keys : List (K × V) → List K
  keys [] = []
  keys ((k, v) ∷ m) = k ∷ keys m

module _ {ℓ} {V : Type ℓ} where
  -- What an entry becomes.
  abbrev pub modified : (V → V) → V → Option V → V
  modified f v none = v
  modified f v (some w) = f w

  modified-const : (x : V) (w : Option V) → modified (λ _. x) x w ≡ x
  modified-const x none = refl
  modified-const x (some w) = refl

module _ {ℓ} {K V : Type ℓ} ⦃e : IsEq K⦄ where
  unfoldable pub lookup : K → List (K × V) → Option V
  lookup k [] = none
  lookup k ((j, v) ∷ m) = if e.beq j k then some v else lookup k m

module _ {ℓ} {K V : Type ℓ} ⦃e : IsEq K⦄ ⦃o : TotalOrder K⦄ where
  -- `map.entry(k).and_modify(f).or_insert(v)`
  unfoldable pub upsert : K → (V → V) → V → List (K × V) → List (K × V)
  upsert k f v [] = (k, v) ∷ []
  upsert k f v ((j, w) ∷ m) =
      if e.beq j k
      then (j, f w) ∷ m
      else if o.le k j
      then (k, v) ∷ (j, w) ∷ m
      else (j, w) ∷ upsert k f v m

  -- Strictly below.
  abbrev pub Below : K → List (K × V) → Type 0
  Below k [] = Unit
  Below k ((j, v) ∷ m) = ((o.le k j ≡ true) × (e.beq j k ≡ false)) × Below k m

  abbrev pub Ascending : List (K × V) → Type 0
  Ascending [] = Unit
  Ascending ((k, v) ∷ m) = Below k m × Ascending m

  pub lookup-Below : (k : K) (m : List (K × V)) → Below k m → lookup k m ≡ none
  unfolding lookup
  lookup-Below k [] h = refl
  lookup-Below k ((j, v) ∷ m) h = rw h.0.1 (lookup-Below k m h.1)

  Below-upsert :
      (i k : K) (f : V → V) (v : V) (m : List (K × V))
      → o.le i k ≡ true
      → e.beq k i ≡ false
      → Below i m
      → Below i (upsert k f v m)
  unfolding upsert
  Below-upsert i k f v [] h n b = ((h, n), tt)
  Below-upsert i k f v ((j, w) ∷ m) h n b = elim (Bool-cases (e.beq j k)) [
    | inl t ↦ rw t b
    | inr d ↦ elim (Bool-cases (o.le k j)) [
      | inl l ↦ rw (d, l) ((h, n), b)
      | inr g ↦ rw (d, g) (b.0, Below-upsert i k f v m h n b.1)
    ]
  ]

  pub Below-trans :
      (k j : K) (w : V) (m : List (K × V))
      → o.le k j ≡ true
      → e.beq j k ≡ false
      → Below j m
      → Below k m
  Below-trans k j w [] h n b = tt
  Below-trans k j w ((i, u) ∷ m) h n b =
      ((o.le_trans k j i h b.0.0, differs (Bool-cases (e.beq i k))), Below-trans k j w m h n b.1)
    where
      differs : (e.beq i k ≡ true) ⊎ (e.beq i k ≡ false) → e.beq i k ≡ false
      differs (inr d) = d
      differs (inl s) =
          let same = (e.beq_iff i k).0 s in
          let back = o.le_antisymm k j h (ap (o.le j) (sym same) ∙ b.0.0) in
          absurd (false≢true (sym n ∙ (e.beq_iff j k).1 (sym back)))

  pub upsert-Ascending :
      (k : K) (f : V → V) (v : V) (m : List (K × V)) → Ascending m → Ascending (upsert k f v m)
  unfolding upsert
  upsert-Ascending k f v [] h = (tt, tt)
  upsert-Ascending k f v ((j, w) ∷ m) h = elim (Bool-cases (e.beq j k)) [
    | inl t ↦ rw t h
    | inr d ↦ elim (Bool-cases (o.le k j)) [
      | inl l ↦ rw (d, l) (((l, d), Below-trans k j w m l d h.0), h)
      | inr g ↦
          rw (d, g)
            (
              Below-upsert j k f v m (le-of_le_false k j g)
                  (beq-false e k j (λ p. false≢true (sym d ∙ (e.beq_iff j k).1 (sym p)))) h.0,
              upsert-Ascending k f v m h.1,
            )
    ]
  ]

  pub lookup-upsert :
      (k j : K) (f : V → V) (v : V) (m : List (K × V))
      → Ascending m
      → lookup j (upsert k f v m)
        ≡ (if e.beq k j then some (modified f v (lookup k m)) else lookup j m)
  unfolding lookup upsert
  lookup-upsert k j f v [] h = refl
  lookup-upsert k j f v ((i, w) ∷ m) h = elim (Bool-cases (e.beq i k)) [
    | inl t ↦ ground (arith, e.beq_iff k j, e.beq_iff i k, e.beq_iff i j)
    | inr d ↦ elim (Bool-cases (o.le k i)) [
      | inl l ↦
          let absent = lookup-Below k m (Below-trans k i w m l d h.0) in
          ground (arith, e.beq_iff k j, e.beq_iff i k, e.beq_iff i j, absent)
      | inr g ↦
          ground (arith, e.beq_iff k j, e.beq_iff i k, e.beq_iff i j, lookup-upsert k j f v m h.1)
    ]
  ]

  -- `map.insert(k, v)`
  pub lookup-upsert_const :
      (k j : K) (x : V) (m : List (K × V))
      → Ascending m
      → lookup j (upsert k (λ _. x) x m) ≡ (if e.beq k j then some x else lookup j m)
  lookup-upsert_const k j x m h =
      lookup-upsert k j (λ _. x) x m h
      ∙ ap (λ y. if e.beq k j then some y else lookup j m) (modified-const x (lookup k m))
