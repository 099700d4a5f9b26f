-- ===== src/Prelude/Strings/Parts/Suffixes.antt =====
-- Texts that end in a text.
use Prim.Native.Nat.{ℕ, zero, suc, ◌-◌, ◌<◌}
use mathlib.Core.Path.{◌≡◌, refl, ap}
use mathlib.Core.Bool.{true, false}
use mathlib.Core.List.{[], ◌∷◌, ◌++◌}
use native.Mathlib.Omega.{arith}
use ovid.Prelude.Lists.{length, take, length-append}
use ovid.Prelude.Strings.{Text, text_eq}
use ovid.Prelude.Strings.Parts.{ends_with, trim_end_rounds, trim_end_matches}

take-append : (s p : Text) → take (length s) (s ++ p) ≡ s
take-append [] p = refl
take-append (c ∷ s) p = ap (λ t. c ∷ t) (take-append s p)

text_beq_self : (s : Text) → text_eq.beq s s ≡ true
text_beq_self s = (text_eq.beq_iff s s).1 refl

pub ends_with-append : (s p : Text) → ends_with p (s ++ p) ≡ true
unfolding ends_with
ends_with-append [] [] = text_beq_self []
ends_with-append [] (c ∷ p) = ground (arith, text_beq_self (c ∷ p))
ends_with-append (c ∷ s) p = ground (arith, ends_with-append s p)

rounds_stop : (fuel : ℕ) (p s : Text) → ends_with p s ≡ false → trim_end_rounds fuel p s ≡ s
unfolding trim_end_rounds
rounds_stop zero p s h = refl
rounds_stop (suc fuel) p s h = rw h refl

rounds_once :
    (fuel : ℕ) (p s : Text) → 0 < fuel → ends_with p s ≡ false → trim_end_rounds fuel p (s ++ p) ≡ s
unfolding trim_end_rounds
rounds_once zero p s pos h = elim pos [ ]
rounds_once (suc fuel) p s pos h =
    let size : length (s ++ p) - length p ≡ length s = omega (arith, length-append s p) in
    rw (ends_with-append s p, size, take-append s p) (rounds_stop fuel p s h)

-- Of one suffix the whole text before it is left.
pub trim_end_matches-once :
    (c : ℕ) (p s : Text) → ends_with (c ∷ p) s ≡ false → trim_end_matches (c ∷ p) (s ++ (c ∷ p)) ≡ s
unfolding trim_end_matches
trim_end_matches-once c p s h =
    rounds_once (length (s ++ (c ∷ p))) (c ∷ p) s (omega (arith, length-append s (c ∷ p))) h
