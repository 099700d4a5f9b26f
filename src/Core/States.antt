-- ===== src/Core/States.antt =====
-- crates/ovid-core/src/states.rs: the claim states, one flag for each dimension.
pub mod Independence
use ovid.Prelude.{Bool, true, false, Option, none, some}

pub data ClaimState : Type 0 where
  declared resolved downloaded installed included_in_artifact loaded exercised : ClaimState
  attempted observed statically_possible causally_required optional degraded_mode : ClaimState
  build_only test_only initialization_only fleet_candidate fleet_confirmed : ClaimState
  unresolved contradicted : ClaimState

pub record ClaimStates : Type 0 where
  pub declared : Bool
  pub resolved : Bool
  pub downloaded : Bool
  pub installed : Bool
  pub included_in_artifact : Bool
  pub loaded : Bool
  pub exercised : Bool
  pub attempted : Bool
  pub observed : Bool
  pub statically_possible : Bool
  pub causally_required : Bool
  pub fleet_confirmed : Bool

-- `ClaimStates::default`
unfoldable pub default : ClaimStates
default = record {
  declared = false;
  resolved = false;
  downloaded = false;
  installed = false;
  included_in_artifact = false;
  loaded = false;
  exercised = false;
  attempted = false;
  observed = false;
  statically_possible = false;
  causally_required = false;
  fleet_confirmed = false;
}

unfoldable pub set_state : ClaimStates → ClaimState → ClaimStates
set_state s declared = record s { declared = true }
set_state s resolved = record s { resolved = true }
set_state s downloaded = record s { downloaded = true }
set_state s installed = record s { installed = true }
set_state s included_in_artifact = record s { included_in_artifact = true }
set_state s loaded = record s { loaded = true }
set_state s exercised = record s { exercised = true }
set_state s attempted = record s { attempted = true }
set_state s observed = record s { observed = true }
set_state s statically_possible = record s { statically_possible = true }
set_state s causally_required = record s { causally_required = true }
set_state s fleet_confirmed = record s { fleet_confirmed = true }
set_state s _ = s

-- `ClaimStates::with`
unfoldable pub with_state : ClaimStates → ClaimState → ClaimStates
unfolding set_state
with_state s state = set_state s state

pub data CausalClassification : Type 0 where
  required required_for_full_behavior degraded optional_dependency : CausalClassification
  incidental build_time test_time initialization inconclusive : CausalClassification

unfoldable pub needed_at_runtime : CausalClassification → Bool
needed_at_runtime required = true
needed_at_runtime required_for_full_behavior = true
needed_at_runtime _ = false
