-- ===== src/Examples/Laboratory.antt =====
-- crates/ovid-cli/src/lab.rs at concrete inputs: a host without namespaces.
use ovid.Prelude.Order.{put_in}
use ovid.Prelude.{
  starts_with, split, contains, last_piece, ℕ, pos, ◌≡◌, refl, true, false, ◌||◌, ◌&&◌, none, some,
  List, [], ◌∷◌, ◌++◌, Text, lit, In, here, find_key, list_beq, text_eq, Floats, arith,
}
use ovid.Core.Event.{EventEnvelope, process_exec}
use ovid.Domain.Dependency.{network}
use ovid.Domain.Trial.{Treatment, unchanged, hide_executable}
use ovid.Application.Ports.{
  answered, can_enforce, TrialObservations, SnapshotRef, TrialSpec, TrialResult,
}
use ovid.Gateway.Proxy.{GatewayIntent}
use ovid.Cli.Lab.{Host, HostLaboratory, deny, process, RunResult}
use ovid.Cli.Lab.Plans.{capabilities, base_for, base_deny, untreated, hiding, posture}
use ovid.Cli.Lab.Shims.{
  no_links, link_dirs, link_entries, link_entry, checked_shim, shim_in, build_shim,
}
use ovid.Cli.Lab.Shims.Links.{visible}
use ovid.Cli.Lab.Shims.Shadowed.{is_answered, directories, build_shim-shadows}
use ovid.Cli.Lab.Intents.{merge_intent_candidates}
use ovid.Cli.Lab.Intents.Named.{candidate_of, directed, summary, merge_intent_candidates-summary}
use ovid.Cli.Lab.Tools.{
  is_inside, launchers, wrapper_tools, workload_entry, excluded, tool_found, found_candidate,
  all_found, note_found, executable_candidates,
}
use ovid.Cli.Lab.Tools.Evidence.{executable_candidates-evidence}
use ovid.Cli.Lab.Port.{Effects, Machine, in_dir, padded, pure, ◌>>=◌, observations}
use ovid.Cli.Lab.Port.Running.{
  run_trial, run_on, run_trial_process, execute, fork, host_gateway, trial_result, plan_trial,
  shadow, run_through, run_behind,
}
use ovid.Cli.Lab.Port.Planned.{Planned, is_block, is_found, plan_trial-answers}
use ovid.Cli.Lab.Port.Outcomes.{Reports, run_trial-Reports}
use ovid.Examples.Dialled.{registry}
use ovid.Examples.Events.{envelope}

abbrev host : Host
host = record {
  network_isolation = false;
  strace_available = true;
  ovid_bin = some (lit "/usr/bin/ovid");
  env_var = λ var. none;
  search_path = some (
      (lit "/usr/bin", lit "git" ∷ lit "curl" ∷ []) ∷ (lit "/bin", lit "sh" ∷ lit "git" ∷ []) ∷ []);
}

abbrev laboratory : HostLaboratory
laboratory = record {
  kind = process;
  registry = registry;
  source_root = lit "/src";
  lab_dir = lit "/lab";
  online_env = lit "PATH" ∷ lit "HTTP_PROXY" ∷ [];
  offline_env = lit "PATH" ∷ lit "NO_PROXY" ∷ [];
  egress = deny;
  upstream = none;
  source_digest = lit "0";
  trial_counter = 0;
}

build_shim-shadows_example :
    find_key (lit "curl") (link_dirs (lit "git") no_links (directories host.search_path)).links
    ≡ visible (lit "git") (lit "curl") (directories host.search_path)
unfolding build_shim shim_in checked_shim link_dirs link_entries link_entry find_key lit list_beq
build_shim-shadows_example = build_shim-shadows host (lit "git") (lit "curl") refl

abbrev intent : Text → ℕ → Text → GatewayIntent
intent host port decision = record {
  seq = 1;
  host = host;
  port = port;
  scheme = lit "https";
  method = lit "CONNECT";
  path = [];
  decision = decision;
}

abbrev intents : List GatewayIntent
intents =
    intent (lit "db") 5432 (lit "refused")
    ∷ intent (lit "localhost") 80 (lit "refused")
    ∷ intent (lit "db") 5432 (lit "forward-failed")
    ∷ []

abbrev nothing_observed : TrialObservations
nothing_observed = record {
  network = [];
  egress_intents = [];
  executables = [];
  observed = true;
  events_captured = 0;
}

merge_intent_candidates-summary_example :
    candidate_of
      (network (lit "db:5432"))
      (merge_intent_candidates nothing_observed intents).network
    ≡ summary (lit "db:5432") (directed (lit "db:5432") intents)
merge_intent_candidates-summary_example =
    merge_intent_candidates-summary nothing_observed intents (lit "db:5432") (omega arith) refl

abbrev floats : Floats
floats = record {
  decimal = λ n k. n;
  add = λ a b. a;
  sub = λ a b. a;
  mul = λ a b. a;
  div = λ a b. a;
  max = λ a b. a;
  min = λ a b. a;
  ln = λ a. a;
  exp = λ a. a;
  of_usize = λ n. n;
  lt = λ a b. false;
}

abbrev events : List EventEnvelope
events = envelope (process_exec (lit "/usr/bin/git") [] none) ∷ []

git_reported :
    In (found_candidate (lit "git")) (
      executable_candidates floats registry
        (lit "ovid")
        (lit "make" ∷ [])
        (lit "/lab/trial")
        events)
unfolding executable_candidates all_found note_found starts_with lit is_inside split list_beq
    excluded contains launchers last_piece wrapper_tools workload_entry put_in
git_reported = here refl

executable_candidates-evidence_example :
    (true ≡ tool_found events (lit "git"))
    × (excluded (lit "ovid") (workload_entry (lit "make" ∷ [])) (lit "git") ≡ false)
unfolding found_candidate
executable_candidates-evidence_example =
    executable_candidates-evidence floats registry (lit "ovid") (lit "make" ∷ []) (lit "/lab/trial")
      events git_reported

abbrev quiet_run : RunResult
quiet_run = record {
  exit_code = some (pos 1);
  signal = none;
  timed_out = false;
  duration_ms = 12;
  stdout_tail = [];
  stderr_tail = [];
  observation = none;
}

-- A host on which everything succeeds, and the workload exits with 1.
abbrev effects : Effects (Unit {0})
effects = record {
  copy_tree = λ from to w. (answered tt, w);
  link_tree = λ dir links w. (answered tt, w);
  materialize = λ from to w. (answered tt, w);
  remove = λ dir w. w;
  run = λ spec w. (answered quiet_run, w);
  start_gateway = λ policy chained log w. (answered 4000, w);
  shutdown = λ w. (intents, w);
  read_intents = λ log w. [];
  unique = λ w. 0;
}

abbrev machine : Machine (Unit {0})
machine = record { lab = laboratory; world = tt }

abbrev frozen : SnapshotRef
frozen = record { id = lit "snapshot-base"; path = lit "/lab/snapshot-base"; label = lit "base" }

abbrev trial : Treatment → TrialSpec
trial t = record {
  label = lit "baseline";
  argv = lit "make" ∷ [];
  treatment = t;
  timeout_seconds = 60;
}

abbrev hide_git : Treatment
hide_git = hide_executable (lit "git")

abbrev hidden_plan : Planned
hidden_plan = (
  hiding (lit "git") (base_for deny host laboratory),
  some (lit "/lab/shim-001"),
  (lit "PATH", lit "/lab/shim-001") ∷ [],
)

plan_trial-answers_example : is_answered (plan_trial effects host hide_git machine).0 ≡ (
    (can_enforce (capabilities host laboratory) hide_git || is_block hide_git)
    && is_found host hide_git)
plan_trial-answers_example = plan_trial-answers effects host hide_git machine (λ dir links w. refl)

abbrev after : HostLaboratory
after = record laboratory { trial_counter = 1 }

abbrev tried : TrialResult
tried =
    trial_result (trial unchanged) (untreated (base_for deny host laboratory)).enforcement quiet_run
      (merge_intent_candidates
        (observations floats host after 0 quiet_run (lit "make" ∷ [])
          (in_dir (lit "/lab") (lit "trial-" ++ (padded 1 ++ (lit "-" ++ lit "baseline")))))
        intents)

runs : (run_trial effects floats host frozen (trial unchanged) machine).0 ≡ answered tried
unfolding run_trial run_on run_trial_process ◌>>=◌ pure plan_trial posture shadow execute
    run_through run_behind fork base_for base_deny untreated hiding host_gateway
runs = refl

run_trial-Reports_example : Reports effects (trial unchanged) tried
run_trial-Reports_example =
    run_trial-Reports effects floats host frozen (trial unchanged) machine runs
