-- ===== src/Cli/Lab/Port.antt =====
-- crates/ovid-cli/src/lab.rs: what the laboratory needs of the host while it works, and its actions.
-- The host is a state of its own: every effect returns its answer and the next state. The counter of
-- the process that keeps signatures apart is read from it.
pub mod Running
pub mod Ports
pub mod Honest
pub mod Ensured
pub mod Planned
pub mod Enforced
pub mod Told
pub mod Outcomes
use ovid.Prelude.{
  ℕ, ◌+◌, ◌%◌, ◌^◌, Bool, true, false, not, Option, none, some, List, [], ◌∷◌, ◌++◌, Text, lit,
  show, map, length, ltb, last_piece, text_eq, Floats, if◌then◌else◌,
}
use ovid.Prelude.Order.{upsert, text_order}
use ovid.Core.Event.{EventEnvelope}
use ovid.Domain.Dependency.{network}
use ovid.Observer.Aggregate.{AggregatedEvents, aggregate}
use ovid.Observer.Strace.Report.{ObservationReport}
use ovid.Application.Ports.{
  LabError, preparation, Answer, answered, refused, NetworkCandidate, TrialObservations,
}
use ovid.Gateway.Analysis.{
  ExternalObservation, NetworkAnalysis, analyze_network, all_failed, identity,
  externally_controlled,
}
use ovid.Gateway.Proxy.{GatewayPolicy, GatewayIntent, Upstream}
use ovid.Cli.Lab.{Host, HostLaboratory, RunResult}
use ovid.Cli.Lab.Plans.{NetworkMode}
use ovid.Cli.Lab.Tools.{executable_candidates}

-- What `run_in` sets of a `RunSpec`.
pub record RunSpec : Type 0 where
  pub dir : Text
  pub argv : List Text
  pub network : NetworkMode
  pub inherit_env : List Text
  pub env : List (Text × Text)
  pub timeout_seconds : ℕ

pub record Effects (σ : Type 0) : Type 0 where
  -- Clears the target and copies a whole tree to it.
  pub copy_tree : (from to : Text) → σ → Answer LabError (Unit {0}) × σ
  pub link_tree : (dir : Text) → List (Text × Text) → σ → Answer LabError (Unit {0}) × σ
  pub materialize : (from to : Text) → σ → Answer LabError (Unit {0}) × σ
  pub remove : Text → σ → σ
  pub run : RunSpec → σ → Answer LabError RunResult × σ
  -- The port of a gateway, which chains through the host's own proxy.
  pub start_gateway : GatewayPolicy → Option Upstream → (log : Text) → σ → Answer LabError ℕ × σ
  pub shutdown : σ → List GatewayIntent × σ
  pub read_intents : Text → σ → List GatewayIntent
  pub unique : σ → ℕ

-- The laboratory and the host.
pub record Machine (σ : Type 0) : Type 0 where
  pub lab : HostLaboratory
  pub world : σ

abbrev pub Action : Type 0 → Type 0 → Type 0
Action σ A = Machine σ → Answer LabError A × Machine σ

module _ {σ : Type 0} where
  unfoldable pub pure : {A : Type 0} → A → Action σ A
  pure a m = (answered a, m)

  abbrev pub refuse : {A : Type 0} → LabError → Action σ A
  refuse e m = (refused e, m)

  abbrev pub continue :
      {A B : Type 0}
      → (A → Action σ B)
      → Answer LabError A × Machine σ
      → Answer LabError B × Machine σ
  continue f (answered a, m) = f a m
  continue f (refused e, m) = (refused e, m)

  -- The `?` operator.
  infixl 1 ◌>>=◌
  unfoldable pub ◌>>=◌ : {A B : Type 0} → Action σ A → (A → Action σ B) → Action σ B
  (x >>= f) m = continue f (x m)

  abbrev pub on_world : {A : Type 0} → (σ → Answer LabError A × σ) → Action σ A
  on_world f m = let (a, w) = f m.world in (a, record m { world = w })

  abbrev pub change : (σ → σ) → Action σ (Unit {0})
  change f m = (answered tt, record m { world = f m.world })

  abbrev pub laboratory : Action σ HostLaboratory
  laboratory m = (answered m.lab, m)

  abbrev pub given : {A : Type 0} → Answer LabError A → Action σ A
  given a m = (a, m)

  -- `self.trial_counter += 1`
  abbrev pub count_up : Action σ ℕ
  count_up m =
      let n = (m.lab.trial_counter + 1) % 2 ^ 64 in
      (answered n, record { lab = record m.lab { trial_counter = n }; world = m.world })

-- `{:03}`
unfoldable pub padded : ℕ → Text
padded n = (if ltb n 10 then lit "00" else if ltb n 100 then lit "0" else []) ++ show n

-- `dir.join(name)`
abbrev pub in_dir : Text → Text → Text
in_dir dir name = dir ++ (lit "/" ++ name)

-- `env.extend(more)`
unfoldable pub extend : List (Text × Text) → List (Text × Text) → List (Text × Text)
extend [] env = env
extend ((var, value) ∷ more) env = extend more (upsert var (λ _. value) value env)

unfoldable pub candidate : ExternalObservation → NetworkCandidate
candidate o = record {
  key = network (identity o);
  externally_controlled = externally_controlled o;
  all_failed = all_failed o;
  enforced_unavailable = false;
  attempts = o.attempts;
  failures = o.failures;
}

-- `file_name`, or the empty text.
file_name : Option Text → Text
file_name none = []
file_name (some path) = last_piece b'/' path

captured : Option ObservationReport → List EventEnvelope × Bool
captured none = ([], false)
captured (some report) = (report.events, true)

-- `observations`; the counter is that of the process.
unfoldable pub observations :
    Floats → Host → HostLaboratory → ℕ → RunResult → List Text → Text → TrialObservations
unfolding captured file_name
observations fl h l counter r argv dir =
    let c = captured r.observation in
    let events = (aggregate counter c.0).events in
    record {
      network = map candidate (analyze_network events l.registry []).external;
      egress_intents = [];
      executables = executable_candidates fl l.registry (file_name h.ovid_bin) argv dir events;
      observed = c.1;
      events_captured = length events;
    }
