-- ===== src/Prelude/Lists.antt =====
-- Lists measured and indexed by native numbers, under the library's names, and the tests `all` and
-- `any` of an iterator.
use Prim.Native.Nat.{ℕ, zero, suc, ◌+◌, ◌<◌}
use mathlib.Core.Path.{◌≡◌, refl, ap, sym, ◌∙◌}
use mathlib.Core.Logic.{inl, inr}
use mathlib.Core.Bool.{Bool, true, false, ◌&&◌, ◌||◌}
use mathlib.Core.List.{List, [], ◌∷◌, ◌++◌, map}
use mathlib.Core.Option
use mathlib.Core.Option.{Option, none, some}
use native.Mathlib.Omega.{arith}
use ovid.Prelude.Tests.{if◌then◌else◌, Bool-cases}

module _ {ℓ} {A : Type ℓ} where
  abbrev pub length : List A → ℕ
  length [] = 0
  length (x ∷ xs) = suc (length xs)

  abbrev pub get_elem? : List A → ℕ → Option A
  get_elem? [] i = none
  get_elem? (x ∷ xs) zero = some x
  get_elem? (x ∷ xs) (suc i) = get_elem? xs i

  abbrev pub take : ℕ → List A → List A
  take zero xs = []
  take (suc n) [] = []
  take (suc n) (x ∷ xs) = x ∷ take n xs

  abbrev pub drop : ℕ → List A → List A
  drop zero xs = xs
  drop (suc n) [] = []
  drop (suc n) (x ∷ xs) = drop n xs

  -- `iter().all(p)`, `iter().any(p)`
  abbrev pub all : (A → Bool) → List A → Bool
  all p [] = true
  all p (x ∷ xs) = p x && all p xs

  abbrev pub any : (A → Bool) → List A → Bool
  any p [] = false
  any p (x ∷ xs) = p x || any p xs

  abbrev pub is_empty : List A → Bool
  is_empty [] = true
  is_empty (x ∷ xs) = false

  -- `iter().filter(p)`
  abbrev pub keep_if : (A → Bool) → List A → List A
  keep_if p [] = []
  keep_if p (x ∷ xs) = let rest = keep_if p xs in if p x then x ∷ rest else rest

  -- `iter().find(p)`
  abbrev pub find : (A → Bool) → List A → Option A
  find p [] = none
  find p (x ∷ xs) = if p x then some x else find p xs

  -- The element stands in the list, with its place.
  pub data In (a : A) : List A → Type ℓ where
    here : {x : A} {xs : List A} → a ≡ x → In a (x ∷ xs)
    there : {x : A} {xs : List A} → In a xs → In a (x ∷ xs)

module _ {ℓ} {A : Type ℓ} where
  abbrev pub All {κ} : (A → Type κ) → List A → Type κ
  All P [] = Unit
  All P (x ∷ xs) = P x × All P xs

  pub All-append {κ} : (P : A → Type κ) (xs ys : List A) → All P xs → All P ys → All P (xs ++ ys)
  All-append P [] ys h k = k
  All-append P (x ∷ xs) ys h k = (h.0, All-append P xs ys h.1 k)

  pub All-imp {κ} : {P Q : A → Type κ} (xs : List A) → ((x : A) → P x → Q x) → All P xs → All Q xs
  All-imp [] f h = tt
  All-imp (x ∷ xs) f h = (f x h.0, All-imp xs f h.1)

  pub length-append : (xs ys : List A) → length (xs ++ ys) ≡ length xs + length ys
  length-append [] ys = omega arith
  length-append (x ∷ xs) ys = omega (arith, length-append xs ys)

  pub length-map {κ} : {B : Type κ} (f : A → B) (xs : List A) → length (map f xs) ≡ length xs
  length-map f [] = refl
  length-map f (x ∷ xs) = ap suc (length-map f xs)

  pub In-append_left : {a : A} {xs : List A} (ys : List A) → In a xs → In a (xs ++ ys)
  In-append_left ys (here e) = here e
  In-append_left ys (there m) = there (In-append_left ys m)

  pub In-append_right : {a : A} (xs : List A) {ys : List A} → In a ys → In a (xs ++ ys)
  In-append_right [] m = m
  In-append_right (x ∷ xs) m = there (In-append_right xs m)

  pub In-append {κ} :
      {a : A} (xs : List A) {ys : List A} {P : Type κ}
      → In a (xs ++ ys)
      → (In a xs → P)
      → (In a ys → P)
      → P
  In-append [] m f g = g m
  In-append (x ∷ xs) (here e) f g = f (here e)
  In-append (x ∷ xs) (there m) f g = In-append xs m (λ k. f (there k)) g

  pub all-true : (p : A → Bool) (xs : List A) {a : A} → all p xs ≡ true → In a xs → p a ≡ true
  all-true p [] h m = elim m [ ]
  all-true p (x ∷ xs) h (here e) = ground (arith, ap p e)
  all-true p (x ∷ xs) h (there m) = all-true p xs (ground arith) m

  pub true-all : (p : A → Bool) (xs : List A) → ((a : A) → In a xs → p a ≡ true) → all p xs ≡ true
  true-all p [] h = refl
  true-all p (x ∷ xs) h = ground (arith, h x (here refl), true-all p xs (λ a m. h a (there m)))

  pub In-keep_if :
      (p : A → Bool) (xs : List A) {a : A} → In a (keep_if p xs) → In a xs × (p a ≡ true)
  In-keep_if p [] m = elim m [ ]
  In-keep_if p (x ∷ xs) m = elim (Bool-cases (p x)) [
    | inl t ↦ kept t (rw t at m) (In-keep_if p xs)
    | inr f ↦ let (k, q) = In-keep_if p xs (rw f at m) in (there k, q)
  ]
    where
      kept :
          {a : A}
          → p x ≡ true
          → In a (x ∷ keep_if p xs)
          → (In a (keep_if p xs) → In a xs × (p a ≡ true))
          → In a (x ∷ xs) × (p a ≡ true)
      kept t (here e) ih = (here e, ap p e ∙ t)
      kept t (there k) ih = let (k', q) = ih k in (there k', q)

  pub In-keep_if_back :
      (p : A → Bool) (xs : List A) {a : A} → In a xs → p a ≡ true → In a (keep_if p xs)
  In-keep_if_back p [] m t = elim m [ ]
  In-keep_if_back p (x ∷ xs) (here e) t = rw (ap p (sym e) ∙ t) (here e)
  In-keep_if_back p (x ∷ xs) (there m) t = elim (Bool-cases (p x)) [
    | inl k ↦ rw k (there (In-keep_if_back p xs m t))
    | inr k ↦ rw k (In-keep_if_back p xs m t)
  ]

  pub get_elem?-map {κ} :
      {B : Type κ} (f : A → B) (xs : List A) (i : ℕ) {a : A}
      → get_elem? xs i ≡ some a
      → get_elem? (map f xs) i ≡ some (f a)
  get_elem?-map f [] i h = cc
  get_elem?-map f (x ∷ xs) zero h = ap (Option.map f) h
  get_elem?-map f (x ∷ xs) (suc i) h = get_elem?-map f xs i h

  pub get_elem?-append :
      (xs ys : List A) (i : ℕ) {a : A} → get_elem? xs i ≡ some a → get_elem? (xs ++ ys) i ≡ some a
  get_elem?-append [] ys i h = cc
  get_elem?-append (x ∷ xs) ys zero h = h
  get_elem?-append (x ∷ xs) ys (suc i) h = get_elem?-append xs ys i h

  pub get_elem?-length : (xs ys : List A) (a : A) → get_elem? (xs ++ (a ∷ ys)) (length xs) ≡ some a
  get_elem?-length [] ys a = refl
  get_elem?-length (x ∷ xs) ys a = get_elem?-length xs ys a

  pub get_elem?-lt : (xs : List A) (i : ℕ) {a : A} → get_elem? xs i ≡ some a → i < length xs
  get_elem?-lt [] i h = cc
  get_elem?-lt (x ∷ xs) zero h = omega arith
  get_elem?-lt (x ∷ xs) (suc i) h = omega (arith, get_elem?-lt xs i h)

  pub get_elem?-In : (xs : List A) (i : ℕ) {a : A} → get_elem? xs i ≡ some a → In a xs
  get_elem?-In [] i h = absurd (cc)
  get_elem?-In (x ∷ xs) zero h = here (ground arith)
  get_elem?-In (x ∷ xs) (suc i) h = there (get_elem?-In xs i h)

  pub find-none : (p : A → Bool) (xs : List A) {a : A} → find p xs ≡ none → In a xs → p a ≡ false
  find-none p [] h m = elim m [ ]
  find-none p (x ∷ xs) h (here e) = ground (arith, ap p e)
  find-none p (x ∷ xs) h (there m) = find-none p xs (ground arith) m

  pub find-some : (p : A → Bool) (xs : List A) {a : A} → find p xs ≡ some a → In a xs × (p a ≡ true)
  find-some p [] h = absurd (cc)
  find-some p (x ∷ xs) {a} h = elim (Bool-cases (p x)) [
    | inl t ↦ let e : a ≡ x = ground arith in (here e, ap p e ∙ t)
    | inr f ↦ let (m, q) = find-some p xs (rw f at h) in (there m, q)
  ]

  pub all-false :
      (p : A → Bool) (xs : List A) → all p xs ≡ false → (a : A) × In a xs × (p a ≡ false)
  all-false p [] h = absurd (cc)
  all-false p (x ∷ xs) h = elim (Bool-cases (p x)) [
    | inl t ↦ let (a, m, q) = all-false p xs (rw t at h) in (a, there m, q)
    | inr f ↦ (x, here refl, f)
  ]

  -- Exactly one place of the list holds an element with `P`, and it is `a`.
  pub data OnlyOne {κ} (P : A → Type κ) (a : A) : List A → Type (ℓ ⊔ κ) where
    first : {xs : List A} {x : A} → x ≡ a → P x → ((y : A) → In y xs → ¬ P y) → OnlyOne P a (x ∷ xs)
    later : {xs : List A} {x : A} → ¬ P x → OnlyOne P a xs → OnlyOne P a (x ∷ xs)

module _ {ℓ κ} {A : Type ℓ} {B : Type κ} (f : A → B) where
  pub In-map_back : (xs : List A) {b : B} → In b (map f xs) → (a : A) × In a xs × (b ≡ f a)
  In-map_back [] m = elim m [ ]
  In-map_back (x ∷ xs) (here e) = (x, here refl, e)
  In-map_back (x ∷ xs) (there m) = let (a, k, e) = In-map_back xs m in (a, there k, e)

  pub In-map : {a : A} {xs : List A} → In a xs → In (f a) (map f xs)
  In-map (here e) = here (ap f e)
  In-map (there m) = there (In-map m)
