-- ===== src/Cli/Lab.antt =====
-- crates/ovid-cli/src/lab.rs: the host laboratory. What the host offers is the record `Host`; copying
-- trees, running workloads and the gateway's threads are the record `Effects` of Cli/Lab/Port.
pub mod Plans
pub mod Shims
pub mod Tools
pub mod Intents
pub mod Port
use ovid.Prelude.{
  ℕ, ℤ, pos, negsuc, Bool, true, false, not, ◌&&◌, ◌||◌, Option, none, some, List, [], ◌∷◌, ◌++◌,
  Text, lit, show, show_int, keep_if, contains, is_zero, option_eq, text_eq, ◌>>=◌, if◌then◌else◌,
}
use ovid.Prelude.Order.{upsert, text_order}
use ovid.Domain.Trial.{
  Treatment, EnforcementReport, EnforcementStatus, enforced, partially_enforced, not_enforced,
  TrialRecord,
}
use ovid.Observer.Strace.Report.{ObservationReport}
use ovid.Packs.Registry.{PackRegistry}
use ovid.Gateway.Proxy.{Upstream, parse_upstream}

pub data EgressPolicy : Type 0 where
  deny allow : EgressPolicy

unfoldable pub parse_egress : Text → Option EgressPolicy
parse_egress name =
    if text_eq.beq name (lit "deny")
    then some deny
    else if text_eq.beq name (lit "allow")
    then some allow
    else none

pub data BackendKind : Type 0 where
  process microsandbox : BackendKind

unfoldable pub parse_backend : Text → Option BackendKind
parse_backend name =
    if text_eq.beq name (lit "process")
    then some process
    else if text_eq.beq name (lit "microsandbox")
    then some microsandbox
    else none

unfoldable pub backend_identity : BackendKind → Text × Text
backend_identity process = (lit "ovid-process-backend", lit "trusted-process")
backend_identity microsandbox = (lit "ovid-microsandbox-backend", lit "microvm-guest")

abbrev pub is_process : BackendKind → Bool
is_process process = true
is_process microsandbox = false

abbrev pub is_allow : EgressPolicy → Bool
is_allow allow = true
is_allow deny = false

unfoldable pub online_default_env : List Text
online_default_env =
    lit "PATH"
    ∷ lit "HOME"
    ∷ lit "https_proxy"
    ∷ lit "HTTPS_PROXY"
    ∷ lit "http_proxy"
    ∷ lit "HTTP_PROXY"
    ∷ lit "no_proxy"
    ∷ lit "NO_PROXY"
    ∷ lit "SSL_CERT_FILE"
    ∷ lit "CURL_CA_BUNDLE"
    ∷ lit "REQUESTS_CA_BUNDLE"
    ∷ lit "GIT_SSL_CAINFO"
    ∷ lit "CARGO_HTTP_CAINFO"
    ∷ lit "JAVA_TOOL_OPTIONS"
    ∷ lit "MAVEN_OPTS"
    ∷ lit "GRADLE_OPTS"
    ∷ []

unfoldable pub offline_default_env : List Text
offline_default_env = lit "PATH" ∷ lit "HOME" ∷ []

unfoldable pub proxy_vars : List Text
proxy_vars =
    lit "HTTP_PROXY"
    ∷ lit "HTTPS_PROXY"
    ∷ lit "http_proxy"
    ∷ lit "https_proxy"
    ∷ lit "ALL_PROXY"
    ∷ lit "all_proxy"
    ∷ lit "NO_PROXY"
    ∷ lit "no_proxy"
    ∷ []

-- The host: what its kernel and tools allow, the path of the running program, its environment, and its
-- search path as the directories that can be read with their entries.
pub record Host : Type 0 where
  pub network_isolation : Bool
  pub strace_available : Bool
  pub ovid_bin : Option Text
  pub env_var : Text → Option Text
  pub search_path : Option (List (Text × List Text))

pub record HostLaboratory : Type 0 where
  pub kind : BackendKind
  pub registry : PackRegistry
  pub source_root : Text
  pub lab_dir : Text
  pub online_env : List Text
  pub offline_env : List Text
  pub egress : EgressPolicy
  pub upstream : Option Upstream
  pub source_digest : Text
  pub trial_counter : ℕ

add_var : Text → List Text → List Text
add_var var env = if contains env var then env else env ++ (var ∷ [])

-- The loop over `extra_env` in `HostLaboratory::new`.
unfoldable pub add_vars : List Text → List Text → List Text
unfolding add_var
add_vars [] env = env
add_vars (var ∷ vars) env = add_vars vars (add_var var env)

first_set : (Text → Option Text) → List Text → Option Text
first_set get [] = none
first_set get (var ∷ vars) = elim (get var) [ some url ↦ some url | none ↦ first_set get vars ]

-- The proxy of the host: of the first variable that is set, if it can be read.
unfoldable pub upstream_of : Host → Option Upstream
unfolding first_set
upstream_of h =
    first_set h.env_var
      (lit "HTTPS_PROXY" ∷ lit "https_proxy" ∷ lit "HTTP_PROXY" ∷ lit "http_proxy" ∷ [])
    >>= parse_upstream

-- `HostLaboratory::new`, of paths that are absolute; building the backend is left out.
unfoldable pub new_laboratory :
    Host
    → BackendKind
    → (source_root source_digest lab_dir : Text) → (extra_env : List Text) → EgressPolicy
    → PackRegistry
    → HostLaboratory
new_laboratory h kind source_root source_digest lab_dir extra_env egress registry = record {
  kind = kind;
  registry = registry;
  source_root = source_root;
  lab_dir = lab_dir;
  online_env = add_vars extra_env online_default_env;
  offline_env = add_vars extra_env offline_default_env;
  egress = egress;
  upstream = upstream_of h;
  source_digest = source_digest;
  trial_counter = 0;
}

unfoldable pub inherit_without_proxy : List Text → List Text
inherit_without_proxy base = keep_if (λ v. not (contains proxy_vars v)) base

-- `env.insert` for each variable.
set_all : List Text → Text → List (Text × Text) → List (Text × Text)
set_all [] value env = env
set_all (var ∷ vars) value env = set_all vars value (upsert var (λ _. value) value env)

unfoldable pub proxy_env : ℕ → List (Text × Text)
unfolding set_all
proxy_env port = set_all (lit "NO_PROXY" ∷ lit "no_proxy" ∷ []) [] (
    set_all (lit "HTTP_PROXY" ∷ lit "HTTPS_PROXY" ∷ lit "http_proxy" ∷ lit "https_proxy" ∷ [])
      (lit "http://127.0.0.1:" ++ show port) [])

-- `ovid_sandbox::RunResult`
pub record RunResult : Type 0 where
  pub exit_code : Option ℤ
  pub signal : Option ℤ
  pub timed_out : Bool
  pub duration_ms : ℕ
  pub stdout_tail : Text
  pub stderr_tail : Text
  pub observation : Option ObservationReport

unfoldable pub exited_zero : Option ℤ → Bool
exited_zero none = false
exited_zero (some code) = is_zero code

unfoldable pub success : RunResult → Bool
unfolding exited_zero
success r = exited_zero r.exit_code && not r.timed_out

unfoldable pub disposition : Bool → Option ℤ → Option ℤ → Text
disposition true code signal = lit "timeout"
disposition false (some code) signal = lit "exit:" ++ show_int code
disposition false none (some signal) = lit "signal:" ++ show_int signal
disposition false none none = lit "unknown"

unfoldable pub signature : RunResult → Option Text
unfolding disposition
signature r = if success r then none else some (disposition r.timed_out r.exit_code r.signal)

unfoldable pub record_of : Text → Treatment → EnforcementReport → RunResult → TrialRecord
record_of label treatment enforcement r = record {
  label = label;
  treatment = treatment;
  enforcement = enforcement;
  outcome = record { passed = success r; failure_signature = signature r };
  evidence = [];
}

limitation : Text
limitation =
    lit "namespace isolation unavailable: proxied egress is refused and named, but a "
    ++ lit "workload opening sockets directly is not blocked"

limitations_of : EnforcementStatus → List Text
unfolding limitation
limitations_of partially_enforced = limitation ∷ []
limitations_of _ = []

unfoldable pub enforcement_report : Treatment → Text → EnforcementStatus → EnforcementReport
unfolding limitations_of
enforcement_report treatment mechanism status = record {
  requested = treatment;
  status = status;
  mechanism = mechanism;
  limitations = limitations_of status;
}
