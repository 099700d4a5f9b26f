-- ===== src/Prelude/Order/Entries.antt =====
-- A loop that makes an entry for each key and folds the later values of the key into it.
use mathlib.Core.Path.{◌≡◌, refl, ap, sym, ◌∙◌}
use mathlib.Core.Logic.{inl, inr}
use mathlib.Core.Bool.{false, false≢true}
use mathlib.Core.List.{List, [], ◌∷◌}
use mathlib.Core.Option.{Option, none, some}
use mathlib.Core.Option.{some-injective}
use ovid.Prelude.Tests.{Bool-cases}
use ovid.Prelude.Lists.{In, here, there, keep_if}
use ovid.Prelude.Eq.{IsEq, beq-false}
use ovid.Prelude.Order.Sort.{TotalOrder}
use ovid.Prelude.Order.Tree.{
  values, modified, lookup, upsert, Below, Ascending, lookup-upsert, upsert-Ascending,
}

module _ {ℓ} {C V : Type ℓ} (f : C → V → V) where
  -- An entry after the later values of its key.
  abbrev pub folded : V → List C → V
  folded v [] = v
  folded v (c ∷ cs) = folded (f c v) cs

-- With what the first value of a key makes.
module _ {ℓ} {C V : Type ℓ} (i : C → V) (f : C → V → V) where
  abbrev pub folded_all : Option V → List C → Option V
  folded_all none [] = none
  folded_all none (c ∷ cs) = some (folded f (i c) cs)
  folded_all (some v) cs = some (folded f v cs)

  folded_all-nil : (o : Option V) → folded_all o [] ≡ o
  folded_all-nil none = refl
  folded_all-nil (some v) = refl

  folded_all-modified :
      (o : Option V) (c : C) (cs : List C)
      → folded_all (some (modified (f c) (i c) o)) cs ≡ folded_all o (c ∷ cs)
  folded_all-modified none c cs = refl
  folded_all-modified (some v) c cs = refl

module _ {ℓ} {K V : Type ℓ} ⦃e : IsEq K⦄ ⦃o : TotalOrder K⦄ where
  Below-lookup :
      (k : K) (m : List (K × V)) (j : K) {v : V}
      → Below k m
      → lookup j m ≡ some v
      → e.beq k j ≡ false
  unfolding lookup
  Below-lookup k [] j b h = absurd (cc)
  Below-lookup k ((i, w) ∷ m) j b h = elim (Bool-cases (e.beq i j)) [
    | inl t ↦
        let same = (e.beq_iff i j).0 t in
        beq-false e k j (λ p. false≢true (sym b.0.1 ∙ (e.beq_iff i k).1 (same ∙ sym p)))
    | inr d ↦ Below-lookup k m j b.1 (rw d at h)
  ]

  In-lookup : (k : K) (m : List (K × V)) {v : V} → lookup k m ≡ some v → In v (values m)
  unfolding lookup
  In-lookup k [] h = absurd (cc)
  In-lookup k ((j, w) ∷ m) {v = v} h = elim (Bool-cases (e.beq j k)) [
    | inl t ↦ here (sym (some-injective w v (rw t at h)))
    | inr d ↦ there (In-lookup k m (rw d at h))
  ]

module _ {ℓ} {K V C : Type ℓ} ⦃e : IsEq K⦄ ⦃o : TotalOrder K⦄ (key : C → K) (i : C → V)
    (f : C → V → V) where
  abbrev pub upsert_all : List (K × V) → List C → List (K × V)
  upsert_all m [] = m
  upsert_all m (c ∷ cs) = upsert_all (upsert (key c) (f c) (i c) m) cs

  -- The values of a key.
  abbrev pub group : K → List C → List C
  group k cs = keep_if (λ c. e.beq (key c) k) cs

  pub lookup-upsert_all :
      (k : K) (m : List (K × V)) (cs : List C)
      → Ascending m
      → lookup k (upsert_all m cs) ≡ folded_all i f (lookup k m) (group k cs)
  lookup-upsert_all k m [] a = sym (folded_all-nil i f (lookup k m))
  lookup-upsert_all k m (c ∷ cs) a =
      let step = lookup-upsert (key c) k (f c) (i c) m a in
      let next =
        lookup-upsert_all k (upsert (key c) (f c) (i c) m) cs
          (upsert-Ascending (key c) (f c) (i c) m a) in
      next
      ∙ (ap (λ o. folded_all i f o (group k cs)) step ∙ elim (Bool-cases (e.beq (key c) k)) [
        | inl t ↦ rw t (
            folded_all-modified i f (lookup (key c) m) c (group k cs)
            ∙ ap (λ j. folded_all i f (lookup j m) (c ∷ group k cs)) ((e.beq_iff (key c) k).0 t))
        | inr d ↦ rw d refl
      ])

  pub upsert_all-Ascending :
      (m : List (K × V)) (cs : List C) → Ascending m → Ascending (upsert_all m cs)
  upsert_all-Ascending m [] a = a
  upsert_all-Ascending m (c ∷ cs) a =
      upsert_all-Ascending (upsert (key c) (f c) (i c) m) cs
        (upsert-Ascending (key c) (f c) (i c) m a)

  group-In :
      (cs : List C) {c : C} → In c cs → (v : V) × (folded_all i f none (group (key c) cs) ≡ some v)
  group-In [] m = elim m [ ]
  group-In (d ∷ cs) {c = c} (here p) =
      rw ((e.beq_iff (key d) (key c)).1 (ap key (sym p))) (folded f (i d) (group (key c) cs), refl)
  group-In (d ∷ cs) {c = c} (there m) = elim (Bool-cases (e.beq (key d) (key c))) [
    | inl t ↦ rw t (folded f (i d) (group (key c) cs), refl)
    | inr n ↦ rw n (group-In cs m)
  ]

  -- The key of an entry's value, which the loop keeps.
  module _ (value_key : V → K) (starts : (c : C) → value_key (i c) ≡ key c)
      (keeps : (c : C) (x : V) → value_key (f c x) ≡ value_key x) where
    -- Each value stands under its own key.
    abbrev Keyed : List (K × V) → Type ℓ
    Keyed [] = Unit
    Keyed ((k, v) ∷ m) = (value_key v ≡ k) × Keyed m

    upsert-Keyed : (c : C) (m : List (K × V)) → Keyed m → Keyed (upsert (key c) (f c) (i c) m)
    unfolding upsert
    upsert-Keyed c [] h = (starts c, tt)
    upsert-Keyed c ((j, w) ∷ m) h = elim (Bool-cases (e.beq j (key c))) [
      | inl t ↦ rw t (keeps c w ∙ h.0, h.1)
      | inr d ↦ elim (Bool-cases (o.le (key c) j)) [
        | inl l ↦ rw (d, l) (starts c, h)
        | inr g ↦ rw (d, g) (h.0, upsert-Keyed c m h.1)
      ]
    ]

    upsert_all-Keyed : (m : List (K × V)) (cs : List C) → Keyed m → Keyed (upsert_all m cs)
    upsert_all-Keyed m [] h = h
    upsert_all-Keyed m (c ∷ cs) h =
        upsert_all-Keyed (upsert (key c) (f c) (i c) m) cs (upsert-Keyed c m h)

    In-Below :
        (k : K) (m : List (K × V)) {v : V}
        → Below k m
        → Keyed m
        → In v (values m)
        → e.beq k (value_key v) ≡ false
    In-Below k [] b h n = elim n [ ]
    In-Below k ((j, w) ∷ m) b h (here p) =
        beq-false e k (value_key _)
          (λ q. false≢true (sym b.0.1 ∙ (e.beq_iff j k).1 (sym (q ∙ (ap value_key p ∙ h.0)))))
    In-Below k ((j, w) ∷ m) b h (there n) = In-Below k m b.1 h.1 n

    lookup-In :
        (m : List (K × V)) {v : V}
        → Ascending m
        → Keyed m
        → In v (values m)
        → lookup (value_key v) m ≡ some v
    unfolding lookup
    lookup-In [] a h n = elim n [ ]
    lookup-In ((j, w) ∷ m) {v = v} a h (here p) =
        rw ((e.beq_iff j (value_key v)).1 (sym (ap value_key p ∙ h.0))) (ap some (sym p))
    lookup-In ((j, w) ∷ m) {v = v} a h (there n) =
        rw (In-Below j m a.0 h.1 n) (lookup-In m a.1 h.1 n)

    -- An entry of the result is its group, folded.
    pub upsert_all-In :
        (cs : List C) {v : V}
        → In v (values (upsert_all [] cs))
        → folded_all i f none (group (value_key v) cs) ≡ some v
    unfolding lookup
    upsert_all-In cs {v = v} n =
        sym (lookup-upsert_all (value_key v) [] cs tt)
        ∙ lookup-In (upsert_all [] cs) (upsert_all-Ascending [] cs tt) (upsert_all-Keyed [] cs tt) n

    lookup-key :
        (k : K) (m : List (K × V)) {v : V} → Keyed m → lookup k m ≡ some v → value_key v ≡ k
    unfolding lookup
    lookup-key k [] h q = absurd (cc)
    lookup-key k ((j, w) ∷ m) {v = v} h q = elim (Bool-cases (e.beq j k)) [
      | inl t ↦ ap value_key (sym (some-injective w v (rw t at q))) ∙ (h.0 ∙ (e.beq_iff j k).0 t)
      | inr d ↦ lookup-key k m h.1 (rw d at q)
    ]

    -- The key of each value has an entry.
    pub upsert_all-Has :
        (cs : List C) {c : C}
        → In c cs
        → (v : V) × In v (values (upsert_all [] cs)) × (value_key v ≡ key c)
    unfolding lookup
    upsert_all-Has cs {c = c} n =
        let (v, q) = group-In cs n in
        let found = lookup-upsert_all (key c) [] cs tt ∙ q in
        (
          v,
          In-lookup (key c) (upsert_all [] cs) found,
          lookup-key (key c) (upsert_all [] cs) (upsert_all-Keyed [] cs tt) found,
        )
