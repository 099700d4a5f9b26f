-- ===== src/Core/States/Independence.antt =====
-- crates/ovid-core/src/states.rs: the dimensions are never collapsed into one another.
use mathlib.Core.Logic.{ite, if_pos, if_neg}
use ovid.Prelude.{◌≡◌, refl, Bool, true, Option, none, some, arith, subst}
use ovid.Core.States.{
  ClaimState, declared, resolved, downloaded, installed, included_in_artifact, loaded, exercised,
  attempted, observed, statically_possible, causally_required, fleet_confirmed, ClaimStates,
  set_state,
}

-- The flag of a dimension; the classification-style states have none.
pub flag : ClaimStates → ClaimState → Option Bool
flag s declared = some s.declared
flag s resolved = some s.resolved
flag s downloaded = some s.downloaded
flag s installed = some s.installed
flag s included_in_artifact = some s.included_in_artifact
flag s loaded = some s.loaded
flag s exercised = some s.exercised
flag s attempted = some s.attempted
flag s observed = some s.observed
flag s statically_possible = some s.statically_possible
flag s causally_required = some s.causally_required
flag s fleet_confirmed = some s.fleet_confirmed
flag s _ = none

pub ClaimState-discrete : Discrete ClaimState
ClaimState-discrete = hlevel

abbrev pub raise : Option Bool → Option Bool
raise none = none
raise (some _) = some true

flag-set_state_same : (s : ClaimStates) (c : ClaimState) → flag (set_state s c) c ≡ raise (flag s c)
unfolding flag set_state
flag-set_state_same s declared = refl
flag-set_state_same s _ = refl

flag-set_state_other :
    (s : ClaimStates) (c d : ClaimState) → ¬ (c ≡ d) → flag (set_state s c) d ≡ flag s d
unfolding flag set_state
flag-set_state_other s declared d h = ground arith
flag-set_state_other s _ d h = ground arith

-- Setting a state raises the flag of that dimension, if it has one, and leaves the flag of every
-- other dimension as it was.
flag-set_state :
    (s : ClaimStates) (c d : ClaimState)
    → flag (set_state s c) d ≡ ite (ClaimState-discrete c d) (raise (flag s d)) (flag s d)
flag-set_state s c d = elim (ClaimState-discrete c d) [
  | yes p ↦
      rw (if_pos _ p)
        (subst (λ x. flag (set_state s c) x ≡ raise (flag s x)) p (flag-set_state_same s c))
  | no n ↦ rw (if_neg _ n) (flag-set_state_other s c d n)
]
