-- ===== src/Examples/Proving.antt =====
-- crates/ovid-application at concrete inputs: a laboratory that runs every trial with success, and a
-- journal that keeps its events.
use ovid.Prelude.{
  ℕ, ◌+◌, ◌^◌, ◌<◌, refl, Bool, not, true, false, Option, none, some, List, [], ◌∷◌, ◌++◌, Text,
  lit, arith, In, here, there, list_beq,
}
use ovid.Prelude.Order.{upsert}
use ovid.Domain.Dependency.{network, key_beq, kind_rank}
use ovid.Domain.Trial.{enforced_by, passing}
use ovid.Domain.Scope.{AnalysisScope}
use ovid.Domain.World.{Codec}
use ovid.Application.Workflow.{
  AnalysisState, new, advance, advance_all, allows, source_resolved, inspected,
  environment_prepared, provisioned, baseline_validated, candidates_observed, experiments_completed,
  world_synthesized, replay_verified, finalized,
}
use ovid.Application.Workflow.History.{IsLegal, history-IsLegal, replay_verified-needs}
use ovid.Application.Ports.{
  Laboratory, Journal, JournalEvent, answered, TrialObservations, NetworkCandidate,
  ExecutableCandidate, merge_candidates, merge_networks, merge_network,
}
use ovid.Application.Ports.Merged.{Summed, of_key, merge_candidates-Summed}
use ovid.Application.Prove.{ProvePolicy, ProveRequest}
use ovid.Application.Prove.Loop.{prove, initial}
use ovid.Application.Prove.Triples.{Meets, Spent}
use ovid.Application.Prove.Safety.{Reported, prove-Reported}

abbrev database : Bool → NetworkCandidate
database failed = record {
  key = network (lit "db:5432");
  externally_controlled = true;
  all_failed = failed;
  enforced_unavailable = failed;
  attempts = 2;
  failures = 1;
}

abbrev compiler : Bool → Option Text → ExecutableCandidate
compiler found hint = record { name = lit "protoc"; found = found; resolver_hint = hint }

abbrev seen : Bool → Option Text → TrialObservations
seen b hint = record {
  network = database b ∷ [];
  egress_intents = [];
  executables = compiler (not b) hint ∷ [];
  observed = true;
  events_captured = 1;
}

abbrev two_trials : List TrialObservations
two_trials = seen true none ∷ seen false (some (lit "apt")) ∷ []

abbrev lab : Laboratory ℕ
lab = record {
  identity = λ n. record { name = lit "lab"; version = lit "1" };
  capabilities = λ n. record {
    vm_isolation = true;
    clean_snapshot_restore = true;
    denies_all_egress = true;
    per_dependency_egress = true;
    executable_hiding = true;
    observation = true;
  };
  prepare = λ argv n. (
    answered (record {
      id = lit "env";
      workspace = lit "/w";
      provision = none;
      environment_digest = lit "e";
    }),
    n,
  );
  snapshot = λ environment label n.
      (answered (record { id = lit "snap"; path = lit "/s"; label = label }), n);
  run_trial = λ snapshot spec n. (
    answered (record {
      trial_record = record {
        label = spec.label;
        treatment = spec.treatment;
        enforcement = enforced_by spec.treatment (lit "vm");
        outcome = passing;
        evidence = [];
      };
      observations = seen false none;
      exit_code = none;
      duration_ms = 1;
      output_tail = [];
    }),
    n + 1,
  );
  destroy = λ environment n. n;
}

abbrev journal : Journal (List JournalEvent)
journal = record { append = λ event events. (answered (lit "e"), events ++ (event ∷ [])) }

abbrev codec : Codec
codec = record { sha256_hex = λ t. t; scope_json = λ s. s.repository; world_json = λ w d. d }

abbrev policy : ProvePolicy
policy = record {
  baseline_runs = 2;
  confirmation_runs = 1;
  max_trials = 12;
  timeout_seconds = 1800;
  attempt_replay = true;
}

abbrev scope : AnalysisScope
scope = record {
  repository = lit "repo";
  revision = lit "1";
  workload = lit "test";
  workload_argv = lit "make" ∷ [];
  environment_digest = [];
  success_predicate = lit "exit 0";
  execution_policy = [];
  observer = [];
  experiment_policy = [];
}

abbrev request : ProveRequest
request = record { scope = scope; provision_argv = none }

twelve : 12 < 2 ^ 64
twelve = omega arith

prove-Reported_example :
    Meets
      (Spent 12)
      (Reported lab journal codec policy twelve)
      (prove lab journal codec policy request (initial 0 []))
prove-Reported_example = prove-Reported lab journal codec policy twelve request 0 []

abbrev states : List AnalysisState
states = source_resolved ∷ inspected ∷ finalized ∷ []

history-IsLegal_example : IsLegal (advance_all new states).history (advance_all new states).state
history-IsLegal_example = history-IsLegal states

abbrev whole_run : List AnalysisState
whole_run =
    source_resolved ∷ inspected ∷ environment_prepared ∷ provisioned ∷ baseline_validated
    ∷ candidates_observed ∷ experiments_completed ∷ world_synthesized ∷ replay_verified ∷ []

replay_verified-needs_example :
    In world_synthesized (advance_all new whole_run).history
    × In experiments_completed (advance_all new whole_run).history
    × In candidates_observed (advance_all new whole_run).history
    × In baseline_validated (advance_all new whole_run).history
    × In provisioned (advance_all new whole_run).history
    × In environment_prepared (advance_all new whole_run).history
    × In inspected (advance_all new whole_run).history
unfolding advance_all advance new allows
replay_verified-needs_example =
    replay_verified-needs whole_run
      (there (there (there (there (there (there (there (there (there (here refl))))))))))

abbrev merged_database : NetworkCandidate
merged_database = record {
  key = network (lit "db:5432");
  externally_controlled = true;
  all_failed = false;
  enforced_unavailable = false;
  attempts = 4;
  failures = 2;
}

merge_candidates-Summed_example : Summed (of_key merged_database.key two_trials) merged_database
unfolding merge_candidates merge_networks upsert key_beq kind_rank network list_beq lit
    merge_network
merge_candidates-Summed_example = merge_candidates-Summed two_trials merged_database (here refl)
