-- ===== src/Application/Workflow.antt =====
-- crates/ovid-application/src/workflow.rs: the analysis state machine. `advance` is the release
-- build; `advance_checked` the debug build, where `none` is the panic of `debug_assert!`.
pub mod History
use ovid.Prelude.{◌≡◌, Bool, true, false, Option, none, some, List, [], ◌∷◌, ◌++◌, if◌then◌else◌}

pub data AnalysisState : Type 0 where
  created source_resolved inspected environment_prepared provisioned : AnalysisState
  baseline_validated candidates_observed experiments_completed : AnalysisState
  world_synthesized replay_verified replay_failed replay_unavailable finalized : AnalysisState

unfoldable pub allows : AnalysisState → AnalysisState → Bool
allows created source_resolved = true
allows source_resolved inspected = true
allows inspected environment_prepared = true
allows environment_prepared provisioned = true
allows provisioned baseline_validated = true
allows baseline_validated candidates_observed = true
allows baseline_validated finalized = true
allows candidates_observed experiments_completed = true
allows experiments_completed world_synthesized = true
allows experiments_completed finalized = true
allows world_synthesized replay_verified = true
allows world_synthesized replay_failed = true
allows world_synthesized replay_unavailable = true
allows replay_verified finalized = true
allows replay_failed finalized = true
allows replay_unavailable finalized = true
allows _ _ = false

pub record Workflow : Type 0 where
  pub state : AnalysisState
  pub history : List AnalysisState

unfoldable pub new : Workflow
new = record { state = created; history = created ∷ [] }

unfoldable pub advance : Workflow → AnalysisState → Workflow
advance w next =
    if allows w.state next then record { state = next; history = w.history ++ (next ∷ []) } else w

unfoldable pub advance_checked : Workflow → AnalysisState → Option Workflow
unfolding advance
advance_checked w next = if allows w.state next then some (advance w next) else none

-- A series of calls of `advance`.
unfoldable pub advance_all : Workflow → List AnalysisState → Workflow
advance_all w [] = w
advance_all w (next ∷ rest) = advance_all (advance w next) rest
