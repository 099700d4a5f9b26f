-- ===== src/Evidence/Confidence.antt =====
-- crates/ovid-evidence/src/confidence.rs: combining tiers into a confidence, on 64-bit floats.
use ovid.Prelude.{ℕ, List, [], ◌∷◌, ltb, is_empty, F64, Floats, if◌then◌else◌}
use ovid.Core.Trust.{TrustTier, t0, t1, t2, t3, t4, t5}

pub data ConfidenceCap : Type 0 where
  observed_cap declared_cap proposal_only : ConfidenceCap

unfoldable pub cap_value : Floats → ConfidenceCap → F64
cap_value fl observed_cap = fl.decimal 999 3
cap_value fl declared_cap = fl.decimal 90 2
cap_value fl proposal_only = fl.decimal 50 2

unfoldable pub tier_likelihood : Floats → TrustTier → F64
tier_likelihood fl t0 = fl.decimal 99 2
tier_likelihood fl t1 = fl.decimal 97 2
tier_likelihood fl t2 = fl.decimal 95 2
tier_likelihood fl t3 = fl.decimal 90 2
tier_likelihood fl t4 = fl.decimal 80 2
tier_likelihood fl t5 = fl.decimal 55 2

one : Floats → F64
one fl = fl.decimal 1 0

-- The loop over the supports.
unfoldable pub spurious_after : Floats → F64 → List TrustTier → F64
unfolding one
spurious_after fl p [] = p
spurious_after fl p (tier ∷ tiers) =
    spurious_after fl (fl.mul p (fl.sub (one fl) (tier_likelihood fl tier))) tiers

-- The penalty in log-odds; the least odds are `f64::MIN_POSITIVE`.
unfoldable pub penalized : Floats → ℕ → F64 → F64
unfolding one
penalized fl contradictions p =
    let odds = fl.max (fl.div p (fl.sub (one fl) p)) (fl.decimal 22250738585072014 324) in
    let e = fl.exp (fl.sub (fl.ln odds) (fl.mul (fl.decimal 15 1) (fl.of_usize contradictions))) in
    fl.div e (fl.add (one fl) e)

unfoldable pub combine_confidence : Floats → List TrustTier → ℕ → ConfidenceCap → F64
unfolding one
combine_confidence fl supports contradictions cap =
    if is_empty supports
    then fl.decimal 0 0
    else let p = fl.sub (one fl) (spurious_after fl (one fl) supports) in
      let q = if ltb 0 contradictions then penalized fl contradictions p else p in
      fl.max (fl.min q (cap_value fl cap)) (fl.decimal 0 0)
