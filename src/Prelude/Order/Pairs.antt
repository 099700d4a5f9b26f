-- ===== src/Prelude/Order/Pairs.antt =====
-- `PartialEq` and `Ord` of a pair: the first component decides, then the second.
use mathlib.Core.Path.{◌≡◌, ap}
use mathlib.Core.Logic.{◌⊎◌, ◌↔◌}
use mathlib.Core.Bool.{Bool, true, ◌&&◌}
use native.Mathlib.Omega.{arith}
use ovid.Prelude.Tests.{if◌then◌else◌}
use ovid.Prelude.Eq.{IsEq}
use ovid.Prelude.Order.Sort.{TotalOrder}

module _ {ℓ} {A B : Type ℓ} ⦃d : IsEq A⦄ ⦃e : IsEq B⦄ where
  abbrev pub pair_beq : A × B → A × B → Bool
  pair_beq (a, b) (a', b') = d.beq a a' && e.beq b b'

  pub pair_beq_iff : (p q : A × B) → (pair_beq p q ≡ true) ↔ (p ≡ q)
  pair_beq_iff (a, b) (a', b') = (
    λ h. ground (arith, d.beq_iff a a', e.beq_iff b b'),
    λ h. ground (
      arith,
      (d.beq_iff a a').1 (ap (λ (p : A × B). p.0) h),
      (e.beq_iff b b').1 (ap (λ (p : A × B). p.1) h),
    ),
  )

  instance abbrev pub pair_eq : IsEq (A × B)
  pair_eq = record { beq = pair_beq; beq_iff = pair_beq_iff }

module _ {ℓ} {A B : Type ℓ} ⦃d : IsEq A⦄ ⦃o : TotalOrder A⦄ ⦃p : TotalOrder B⦄ where
  abbrev pub pair_le : A × B → A × B → Bool
  pair_le (a, b) (a', b') = if d.beq a a' then p.le b b' else o.le a a'

  pub pair_le_total : (x y : A × B) → (pair_le x y ≡ true) ⊎ (pair_le y x ≡ true)
  pair_le_total (a, b) (a', b') =
      ground (arith, d.beq_iff a a', d.beq_iff a' a, o.le_total a a', p.le_total b b')

  pub pair_le_trans : (x y z : A × B) → pair_le x y ≡ true → pair_le y z ≡ true → pair_le x z ≡ true
  pair_le_trans (a, b) (a', b') (a'', b'') h k = ground (
    arith,
    d.beq_iff a a',
    d.beq_iff a' a'',
    d.beq_iff a a'',
    o.le_trans a a' a'',
    o.le_antisymm a a',
    p.le_trans b b' b'',
  )

  pub pair_le_antisymm : (x y : A × B) → pair_le x y ≡ true → pair_le y x ≡ true → x ≡ y
  pair_le_antisymm (a, b) (a', b') h k =
      ground (arith, d.beq_iff a a', d.beq_iff a' a, o.le_antisymm a a', p.le_antisymm b b')

  instance abbrev pub pair_order : TotalOrder (A × B)
  pair_order = record {
    le = pair_le;
    le_total = pair_le_total;
    le_trans = pair_le_trans;
    le_antisymm = pair_le_antisymm;
  }
