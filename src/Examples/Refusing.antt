-- ===== src/Examples/Refusing.antt =====
-- crates/ovid-gateway/src/proxy.rs with crates/ovid-cli/src/lab.rs at a concrete connection.
use ovid.Prelude.{
  ◌≡◌, refl, ◌∙◌, true, some, List, [], ◌∷◌, lit, length, arith, list_beq, contains, rsplit_once,
  parse_unsigned, trim_end_char, trim_start_char, starts_with, show,
}
use ovid.Domain.Dependency.{network}
use ovid.Application.Ports.{NetworkCandidate, TrialObservations}
use ovid.Gateway.Proxy.{
  deny, Connection, serve, handle_connection, parse_request, handle_request, refuses,
}
use ovid.Cli.Lab.Intents.{merge_intent_candidates, is_loopback_host}
use ovid.Cli.Lab.Intents.Named.{candidate_of, directed, summary, merge_intent_candidates-summary}
use ovid.Cli.Lab.Intents.Denied.{recorded, merge_intent_candidates-deny}

abbrev connections : List Connection
connections = record { first_line = lit "CONNECT db:5432 HTTP/1.1"; reaches = true } ∷ []

abbrev nothing_observed : TrialObservations
nothing_observed = record {
  network = [];
  egress_intents = [];
  executables = [];
  observed = true;
  events_captured = 0;
}

abbrev refused_database : NetworkCandidate
refused_database = record {
  key = network (lit "db:5432");
  externally_controlled = true;
  all_failed = true;
  enforced_unavailable = true;
  attempts = 1;
  failures = 1;
}

one_connection : length (recorded (serve deny 1 connections)) ≡ 1
unfolding serve handle_connection parse_request handle_request lit contains list_beq rsplit_once
    parse_unsigned
one_connection = refl

summarized :
    summary (lit "db:5432") (directed (lit "db:5432") (recorded (serve deny 1 connections)))
    ≡ some refused_database
unfolding serve handle_connection parse_request handle_request is_loopback_host lit list_beq
    contains rsplit_once parse_unsigned refuses trim_end_char trim_start_char starts_with show
summarized = refl

observed :
    candidate_of
      (network (lit "db:5432"))
      (merge_intent_candidates nothing_observed (recorded (serve deny 1 connections))).network
    ≡ some refused_database
observed =
    merge_intent_candidates-summary nothing_observed (recorded (serve deny 1 connections))
      (lit "db:5432") (omega (arith, one_connection)) refl
    ∙ summarized

merge_intent_candidates-deny_example : refused_database.enforced_unavailable ≡ true
merge_intent_candidates-deny_example =
    merge_intent_candidates-deny nothing_observed 1 connections (lit "db:5432")
      (omega (arith, one_connection)) refl observed
