-- ===== src/Core/Trust.antt =====
-- crates/ovid-core/src/trust.rs: the trust tiers, strongest first.
use ovid.Prelude.{Bool, true, false, Text, lit}

pub data TrustTier : Type 0 where
  t0 t1 t2 t3 t4 t5 : TrustTier

unfoldable pub can_confirm_alone : TrustTier → Bool
can_confirm_alone t5 = false
can_confirm_alone _ = true

unfoldable pub as_str : TrustTier → Text
as_str t0 = lit "T0"
as_str t1 = lit "T1"
as_str t2 = lit "T2"
as_str t3 = lit "T3"
as_str t4 = lit "T4"
as_str t5 = lit "T5"
