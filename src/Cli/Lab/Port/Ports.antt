-- ===== src/Cli/Lab/Port/Ports.antt =====
-- crates/ovid-cli/src/lab.rs: the other operations of the port, and the laboratory as a port.
use ovid.Prelude.{Option, none, some, List, [], ◌∷◌, ◌++◌, Text, lit, Floats}
use ovid.Domain.Trial.{unchanged, TrialRecord, enforced_by}
use ovid.Application.Ports.{Laboratory, PreparedEnvironment, SnapshotRef}
use ovid.Cli.Lab.{Host, HostLaboratory, record_of}
use ovid.Cli.Lab.Plans.{capabilities, inherit}
use ovid.Cli.Lab.Port.{Effects, Machine, Action, pure, ◌>>=◌, on_world, change, laboratory, in_dir}
use ovid.Cli.Lab.Port.Running.{run_trial}

-- The version of the program, the name of a backend, and the digest of the source with the
-- provisioning and the backend, hexadecimal.
pub record Naming : Type 0 where
  pub version : Text
  pub backend_name : HostLaboratory → Text
  pub environment_digest : (source : Text) → Option (List Text) → (backend : Text) → Text

module _ {σ : Type 0} (fx : Effects σ) (names : Naming) where
  provisioned : Text → List Text → Action σ (Option TrialRecord)
  provisioned dir [] = pure none
  provisioned dir (command ∷ arguments) = do
    l ← laboratory
    r ← on_world (
        fx.run (record {
          dir = dir;
          argv = command ∷ arguments;
          network = inherit;
          inherit_env = l.online_env;
          env = [];
          timeout_seconds = 3600;
        }))
    pure (
        some (record_of (lit "provision") unchanged (enforced_by unchanged (lit "host-network")) r))

  provision_with : Text → Option (List Text) → Action σ (Option TrialRecord)
  provision_with dir none = pure none
  provision_with dir (some argv) = provisioned dir argv

  unfoldable pub prepare : Option (List Text) → Action σ PreparedEnvironment
  unfolding provision_with provisioned
  prepare provision = do
    l ← laboratory
    _ ← on_world (fx.materialize l.source_root (in_dir l.lab_dir (lit "env")))
    outcome ← provision_with (in_dir l.lab_dir (lit "env")) provision
    pure (record {
      id = lit "lab-env";
      workspace = in_dir l.lab_dir (lit "env");
      provision = outcome;
      environment_digest =
          names.environment_digest l.source_digest provision (names.backend_name l);
    })

  unfoldable pub snapshot : PreparedEnvironment → Text → Action σ SnapshotRef
  snapshot environment label = do
    l ← laboratory
    _ ← on_world (fx.copy_tree environment.workspace (in_dir l.lab_dir (lit "snapshot-" ++ label)))
    pure (record {
      id = lit "snapshot-" ++ label;
      path = in_dir l.lab_dir (lit "snapshot-" ++ label);
      label = label;
    })

  -- `impl LaboratoryPort for HostLaboratory`
  unfoldable pub laboratory_port : Floats → Host → Laboratory (Machine σ)
  laboratory_port fl h = record {
    identity = λ m. record { name = names.backend_name m.lab; version = names.version };
    capabilities = λ m. capabilities h m.lab;
    prepare = prepare;
    snapshot = snapshot;
    run_trial = run_trial fx fl h;
    destroy = λ environment m. (change (fx.remove environment.workspace) m).1;
  }
