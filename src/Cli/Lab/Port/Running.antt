-- ===== src/Cli/Lab/Port/Running.antt =====
-- crates/ovid-cli/src/lab.rs: running a workload behind a gateway, and a trial from its plan.
use ovid.Prelude.{
  ℕ, ◌%◌, ◌^◌, Option, none, some, List, [], ◌∷◌, ◌++◌, Text, lit, show, text_eq, Floats,
}
use ovid.Prelude.Order.{upsert, text_order}
use ovid.Domain.Trial.{EnforcementReport, Treatment}
use ovid.Application.Ports.{
  LabError, unsupported, preparation, Answer, answered, refused, SnapshotRef, TrialSpec,
  TrialResult, TrialObservations,
}
use ovid.Gateway.Proxy.{GatewayPolicy, deny, forward, forward_except, GatewayIntent, Upstream}
use ovid.Cli.Lab.{
  Host, HostLaboratory, BackendKind, process, microsandbox, RunResult, proxy_env, record_of,
}
use ovid.Cli.Lab.Plans.{
  inherit, GatewayPlan, host_forward, netns_deny, host_deny_partial, Plan, posture, plan_guest,
}
use ovid.Cli.Lab.Shims.{Shim, no_links, link_dirs, build_shim}
use ovid.Cli.Lab.Intents.{merge_intent_candidates}
use ovid.Cli.Lab.Port.{
  RunSpec, Effects, Action, pure, refuse, continue, ◌>>=◌, on_world, change, laboratory, given,
  count_up, padded, in_dir, extend, observations,
}

unfoldable pub netns_gateway_port : ℕ
netns_gateway_port = 8899

script : Text
script =
    lit "ip link set lo up 2>/dev/null || "
    ++ (lit "python3 -c 'import socket,fcntl,struct;"
        ++ (lit "s=socket.socket(socket.AF_INET,socket.SOCK_DGRAM);"
            ++ (lit
                  "fcntl.ioctl(s.fileno(),0x8914,struct.pack(\"16sH14s\",b\"lo\",0x41,b\"\\0\"*14))' "
                ++ (lit "2>/dev/null || true\n"
                    ++ (lit "\"$OVID_GW_BIN\" internal-gateway --listen 127.0.0.1:"
                        ++ (show netns_gateway_port
                            ++ (lit " --policy deny "
                                ++ (lit
                                      "--log \"$OVID_GW_INTENTS\" --ready \"$OVID_GW_READY\" >/dev/null 2>&1 &\n"
                                    ++ (lit "GW=$!\n"
                                        ++ (lit
                                              "i=0; while [ ! -f \"$OVID_GW_READY\" ] && [ \"$i\" -lt 100 ]; do "
                                            ++ (lit "sleep 0.05; i=$((i+1)); done\n"
                                                ++ (lit "\"$@\"\n"
                                                    ++ (lit "STATUS=$?\n"
                                                        ++ (lit "kill \"$GW\" 2>/dev/null\n"
                                                            ++ lit
                                                            "exit \"$STATUS\"\n"))))))))))))))

unfoldable pub netns_deny_wrapper : List Text → List Text
unfolding script
netns_deny_wrapper argv =
    lit "unshare" ∷ lit "-r" ∷ lit "-n" ∷ lit "sh" ∷ lit "-c" ∷ script ∷ lit "ovid-netns" ∷ argv

-- What stands in the way of the workload, and how its policy is realized on the host; `none` is the
-- gateway in a namespace of its own.
unfoldable pub host_gateway :
    GatewayPlan → Option Upstream → Option (GatewayPolicy × Option Upstream)
host_gateway host_deny_partial upstream = some (deny, none)
host_gateway (host_forward []) upstream = some (forward, upstream)
host_gateway (host_forward (b ∷ block)) upstream = some (forward_except (b ∷ block), upstream)
host_gateway netns_deny upstream = none

set_var : Text → Text → List (Text × Text) → List (Text × Text)
set_var var value env = upsert var (λ _. value) value env

unfoldable pub namespace_env : (ovid_bin dir : Text) → List (Text × Text) → List (Text × Text)
unfolding set_var
namespace_env ovid_bin dir env = set_var (lit "OVID_GW_READY") (in_dir dir (lit ".ovid-gw-ready")) (
    set_var (lit "OVID_GW_INTENTS") (in_dir dir (lit ".ovid-intents"))
      (set_var (lit "OVID_GW_BIN") ovid_bin (extend (proxy_env netns_gateway_port) env)))

-- `std::env::var("PATH")`
unfoldable pub search_dirs :
    Option (List (Text × List Text)) → Answer LabError (List (Text × List Text))
search_dirs none = refused (unsupported (lit "host PATH is not set"))
search_dirs (some dirs) = answered dirs

-- `current_exe`, whose own error text is left out.
path_of : Option Text → Answer LabError Text
path_of none = refused (preparation (lit "locate ovid binary"))
path_of (some path) = answered path

unfoldable pub trial_result :
    TrialSpec → EnforcementReport → RunResult → TrialObservations → TrialResult
trial_result spec enforcement r o = record {
  trial_record = record_of spec.label spec.treatment enforcement r;
  observations = o;
  exit_code = r.exit_code;
  duration_ms = r.duration_ms % 2 ^ 64;
  output_tail = r.stdout_tail ++ (lit "\n" ++ r.stderr_tail);
}

module _ {σ : Type 0} (fx : Effects σ) where
  -- The run, whose error is raised only after the gateway was shut down.
  unfoldable pub run_behind : RunSpec → Action σ (RunResult × List GatewayIntent)
  run_behind spec m =
      let (result, w) = fx.run spec m.world in
      let (intents, w') = fx.shutdown w in
      continue (λ r. pure (r, intents)) (result, record m { world = w' })

  unfoldable pub run_wrapped : RunSpec → (log : Text) → Action σ (RunResult × List GatewayIntent)
  run_wrapped spec log m =
      let (result, w) = fx.run spec m.world in
      continue (λ r. pure (r, fx.read_intents log w)) (result, record m { world = w })

  -- Behind a gateway on the host, or in a namespace with its own.
  unfoldable pub run_through :
      Host
      → (counter : ℕ) → RunSpec
      → HostLaboratory
      → Option (GatewayPolicy × Option Upstream)
      → Action σ (RunResult × List GatewayIntent)
  unfolding run_behind run_wrapped path_of
  run_through h counter spec l (some (policy, upstream)) = do
    port ← on_world (
        fx.start_gateway policy upstream
          (in_dir l.lab_dir (lit "gw-" ++ (padded counter ++ lit ".jsonl"))))
    run_behind (record spec { env = extend (proxy_env port) spec.env })
  run_through h counter spec l none = do
    bin ← given (path_of h.ovid_bin)
    run_wrapped
        (record spec {
          argv = netns_deny_wrapper spec.argv;
          network = inherit;
          env = namespace_env bin spec.dir spec.env;
        })
        (in_dir spec.dir (lit ".ovid-intents"))

  unfoldable pub execute :
      Host → (counter : ℕ) → RunSpec → GatewayPlan → Action σ (RunResult × List GatewayIntent)
  execute h counter spec gateway = do
    l ← laboratory
    run_through h counter spec l (host_gateway gateway l.upstream)

  -- A directory that is not kept is removed before the refusal.
  abbrev pub keep_shim : Text → Answer LabError Shim → Action σ Text
  keep_shim dir (answered s) = pure dir
  keep_shim dir (refused e) = change (fx.remove dir) >>= λ _. refuse e

  -- The directory is made with its links, and then checked.
  unfoldable pub make_shim : Host → Text → List (Text × List Text) → Action σ Text
  make_shim h hidden dirs = do
    n ← count_up
    l ← laboratory
    _ ← on_world (
        fx.link_tree (in_dir l.lab_dir (lit "shim-" ++ padded n))
          (link_dirs hidden no_links dirs).links)
    keep_shim (in_dir l.lab_dir (lit "shim-" ++ padded n)) (build_shim h hidden)

  unfoldable pub build_shim_path : Host → Text → Action σ Text
  build_shim_path h hidden = given (search_dirs h.search_path) >>= make_shim h hidden

  -- The shadow directory of an executable, with the environment that leads to it.
  unfoldable pub shadow : Host → Option Text → Action σ (Option Text × List (Text × Text))
  shadow h none = pure (none, [])
  shadow h (some name) = build_shim_path h name >>= λ dir. pure (some dir, (lit "PATH", dir) ∷ [])

  -- The match of `run_trial`, for the process laboratory.
  unfoldable pub plan_trial : Host → Treatment → Action σ (Plan × Option Text × List (Text × Text))
  unfolding posture
  plan_trial h t = do
    l ← laboratory
    plan ← given (posture h l t)
    shim ← shadow h plan.hides
    pure (plan, shim.0, shim.1)

  -- The copy of the snapshot that a trial runs in.
  unfoldable pub fork : SnapshotRef → Text → Action σ (ℕ × Text)
  fork snapshot label = do
    n ← count_up
    l ← laboratory
    _ ← on_world (
        fx.copy_tree snapshot.path
          (in_dir l.lab_dir (lit "trial-" ++ (padded n ++ (lit "-" ++ label)))))
    pure (n, in_dir l.lab_dir (lit "trial-" ++ (padded n ++ (lit "-" ++ label))))

  drop_shim : Option Text → Action σ (Unit {0})
  drop_shim none = pure tt
  drop_shim (some dir) = change (fx.remove dir)

  observe : Floats → Host → TrialSpec → Text → RunResult → Action σ TrialObservations
  observe fl h spec dir r m =
      (answered (observations fl h m.lab (fx.unique m.world) r spec.argv dir), m)

  unfoldable pub run_trial_guest : Floats → Host → SnapshotRef → TrialSpec → Action σ TrialResult
  unfolding observe
  run_trial_guest fl h snapshot spec = do
    l ← laboratory
    plan ← given (plan_guest l spec.treatment)
    trial ← fork snapshot spec.label
    r ← on_world (
        fx.run (record {
          dir = trial.1;
          argv = spec.argv;
          network = plan.network;
          inherit_env = plan.inherit_env;
          env = [];
          timeout_seconds = spec.timeout_seconds;
        }))
    o ← observe fl h spec trial.1 r
    _ ← change (fx.remove trial.1)
    pure (trial_result spec plan.enforcement r o)

  -- After the check of the backend's kind.
  unfoldable pub run_trial_process : Floats → Host → SnapshotRef → TrialSpec → Action σ TrialResult
  unfolding drop_shim observe
  run_trial_process fl h snapshot spec = do
    planned ← plan_trial h spec.treatment
    trial ← fork snapshot spec.label
    run ←
        execute h trial.0
          (record {
            dir = trial.1;
            argv = spec.argv;
            network = planned.0.network;
            inherit_env = planned.0.inherit_env;
            env = planned.2;
            timeout_seconds = spec.timeout_seconds;
          })
          planned.0.gateway
    o ← observe fl h spec trial.1 run.0
    _ ← change (fx.remove trial.1)
    _ ← drop_shim planned.1
    pure (trial_result spec planned.0.enforcement run.0 (merge_intent_candidates o run.1))

  unfoldable pub run_on :
      BackendKind → Floats → Host → SnapshotRef → TrialSpec → Action σ TrialResult
  run_on microsandbox fl h snapshot spec = run_trial_guest fl h snapshot spec
  run_on process fl h snapshot spec = run_trial_process fl h snapshot spec

  unfoldable pub run_trial : Floats → Host → SnapshotRef → TrialSpec → Action σ TrialResult
  run_trial fl h snapshot spec m = run_on m.lab.kind fl h snapshot spec m
