-- ===== src/Prelude/Float.antt =====
-- `f64` as its bit pattern. Its operations are those of IEEE 754, which the language gives and the
-- logic does not: they are the parameter `Floats`, of which a theorem says what it needs.
use Prim.Native.Nat.{ℕ}
use mathlib.Core.Bool.{Bool, not}

abbrev pub F64 : Type 0
F64 = ℕ

-- `decimal n k` is the literal n / 10^k, rounded; `lt` is false where an argument is NaN.
pub record Floats : Type 0 where
  pub decimal : ℕ → ℕ → F64
  pub add : F64 → F64 → F64
  pub sub : F64 → F64 → F64
  pub mul : F64 → F64 → F64
  pub div : F64 → F64 → F64
  pub max : F64 → F64 → F64
  pub min : F64 → F64 → F64
  pub ln : F64 → F64
  pub exp : F64 → F64
  pub of_usize : ℕ → F64
  pub lt : F64 → F64 → Bool

-- `b.partial_cmp(&a).unwrap_or(Equal)` is not `Greater`: `a` may stand before `b` in descending order.
abbrev pub at_least : Floats → F64 → F64 → Bool
at_least fl a b = not (fl.lt a b)
