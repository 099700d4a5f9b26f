-- ===== src/Prelude/Eq.antt =====
-- Rust's `PartialEq`: one test for every type that has an instance.
use Prim.Native.Nat.{ℕ}
use mathlib.Core.Path.{◌≡◌, refl, ap, sym, ◌∙◌}
use mathlib.Core.Logic.{◌↔◌, ◌≢◌, inl, inr}
use mathlib.Core.Bool.{Bool, true, false, ◌&&◌, false≢true}
use mathlib.Core.List.{List, [], ◌∷◌}
use mathlib.Core.Option.{Option, none, some}
use native.Mathlib.Omega.{arith}
use ovid.Prelude.Tests.{nat_beq, nat_beq_iff, Bool-cases}
use ovid.Prelude.Lists.{any, In, here, there}

pub record IsEq {ℓ} (A : Type ℓ) : Type ℓ where
  pub beq : A → A → Bool
  pub beq_iff : (a b : A) → (beq a b ≡ true) ↔ (a ≡ b)

pub eq_discrete {ℓ} : {A : Type ℓ} → IsEq A → Discrete A
eq_discrete e a b = elim (Bool-cases (e.beq a b)) [
  | inl t ↦ yes ((e.beq_iff a b).0 t)
  | inr f ↦ no (λ p. false≢true (sym f ∙ (e.beq_iff a b).1 p))
]

pub beq-false {ℓ} : {A : Type ℓ} (e : IsEq A) (a b : A) → a ≢ b → e.beq a b ≡ false
beq-false e a b h = elim (Bool-cases (e.beq a b)) [
  | inl t ↦ absurd (h ((e.beq_iff a b).0 t))
  | inr f ↦ f
]

instance abbrev pub nat_eq : IsEq ℕ
nat_eq = record { beq = nat_beq; beq_iff = nat_beq_iff }

abbrev pub bool_beq : Bool → Bool → Bool
bool_beq true b = b
bool_beq false true = false
bool_beq false false = true

pub bool_beq_iff : (a b : Bool) → (bool_beq a b ≡ true) ↔ (a ≡ b)
bool_beq_iff a b = ground arith

instance abbrev pub bool_eq : IsEq Bool
bool_eq = record { beq = bool_beq; beq_iff = bool_beq_iff }

module _ {ℓ} {A : Type ℓ} ⦃e : IsEq A⦄ where
  unfoldable pub list_beq : List A → List A → Bool
  list_beq [] [] = true
  list_beq (x ∷ xs) (y ∷ ys) = e.beq x y && list_beq xs ys
  list_beq _ _ = false

  list_beq_sound : (xs ys : List A) → list_beq xs ys ≡ true → xs ≡ ys
  unfolding list_beq
  list_beq_sound [] [] h = refl
  list_beq_sound [] (y ∷ ys) h = cc
  list_beq_sound (x ∷ xs) [] h = cc
  list_beq_sound (x ∷ xs) (y ∷ ys) h =
      ground (arith, e.beq_iff x y, list_beq_sound xs ys (ground arith))

  list_beq_refl : (xs : List A) → list_beq xs xs ≡ true
  unfolding list_beq
  list_beq_refl [] = refl
  list_beq_refl (x ∷ xs) = ground (arith, e.beq_iff x x, list_beq_refl xs)

  pub list_beq_iff : (xs ys : List A) → (list_beq xs ys ≡ true) ↔ (xs ≡ ys)
  list_beq_iff xs ys = (list_beq_sound xs ys, λ p. ap (list_beq xs) (sym p) ∙ list_beq_refl xs)

  instance abbrev pub list_eq : IsEq (List A)
  list_eq = record { beq = list_beq; beq_iff = list_beq_iff }

  unfoldable pub option_beq : Option A → Option A → Bool
  option_beq none none = true
  option_beq (some a) (some b) = e.beq a b
  option_beq _ _ = false

  pub option_beq_iff : (a b : Option A) → (option_beq a b ≡ true) ↔ (a ≡ b)
  unfolding option_beq
  option_beq_iff none none = (λ _. refl, λ _. refl)
  option_beq_iff none (some b) = (λ h. cc, λ h. cc)
  option_beq_iff (some a) none = (λ h. cc, λ h. cc)
  option_beq_iff (some a) (some b) =
      (λ h. ap some ((e.beq_iff a b).0 h), λ h. (e.beq_iff a b).1 (cc))

  instance abbrev pub option_eq : IsEq (Option A)
  option_eq = record { beq = option_beq; beq_iff = option_beq_iff }

  -- `xs.contains(&a)`
  unfoldable pub contains : List A → A → Bool
  contains xs a = any (λ x. e.beq x a) xs

  pub mem_of_contains : (xs : List A) (a : A) → contains xs a ≡ true → In a xs
  unfolding contains
  mem_of_contains [] a h = absurd (cc)
  mem_of_contains (x ∷ xs) a h = elim (Bool-cases (e.beq x a)) [
    | inl t ↦ here (sym ((e.beq_iff x a).0 t))
    | inr f ↦ there (mem_of_contains xs a (ground arith))
  ]

  pub contains_of_mem : {a : A} {xs : List A} → In a xs → contains xs a ≡ true
  unfolding contains
  contains_of_mem {a = a} (here {x = x} p) = ground (arith, (e.beq_iff x a).1 (sym p))
  contains_of_mem {a = a} (there {xs = xs} m) = ground (arith, contains_of_mem m)
