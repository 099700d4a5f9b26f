-- ===== src/Prelude/Maps.antt =====
-- `HashMap`, whose keys have no order: the last value of a key stands first.
use mathlib.Core.Path.{◌≡◌, refl}
use mathlib.Core.List.{List, [], ◌∷◌}
use mathlib.Core.Option.{Option, none, some}
use native.Mathlib.Omega.{arith}
use ovid.Prelude.Tests.{if◌then◌else◌}
use ovid.Prelude.Eq.{IsEq}

module _ {ℓ} {K V : Type ℓ} ⦃e : IsEq K⦄ where
  -- `map.get(&k)`
  unfoldable pub find_key : K → List (K × V) → Option V
  find_key k [] = none
  find_key k ((j, v) ∷ m) = if e.beq j k then some v else find_key k m

  -- `map.insert(k, v)`
  abbrev pub put : K → V → List (K × V) → List (K × V)
  put k v m = (k, v) ∷ m

  -- What `map.remove(&k)` leaves.
  unfoldable pub drop_key : K → List (K × V) → List (K × V)
  drop_key k [] = []
  drop_key k ((j, v) ∷ m) = let rest = drop_key k m in if e.beq j k then rest else (j, v) ∷ rest

  pub drop_key-absent : (k : K) (m : List (K × V)) → find_key k m ≡ none → drop_key k m ≡ m
  unfolding find_key drop_key
  drop_key-absent k [] h = refl
  drop_key-absent k ((j, v) ∷ m) h = ground (arith, drop_key-absent k m)
