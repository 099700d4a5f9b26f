-- ===== src/Cli/Lab/Plans.antt =====
-- crates/ovid-cli/src/lab.rs: how a treatment is realized, and what the laboratory says that it can
-- enforce.
use ovid.Prelude.{
  true, not, ◌&&◌, ◌||◌, Option, none, some, List, [], ◌∷◌, ◌++◌, Text, lit, keep_if, rsplit_once,
  text_eq, if◌then◌else◌,
}
use ovid.Domain.Dependency.{DependencyKey}
use ovid.Domain.Trial
use ovid.Domain.Trial.{
  Treatment, unchanged, deny_all_egress, block_dependency, hide_executable, EnforcementReport,
  EnforcementStatus, enforced, partially_enforced, enforced_by,
}
use ovid.Application.Ports.{LabCapabilities, LabError, Answer, answered, refused, unsupported}
use ovid.Cli.Lab.{
  Host, HostLaboratory, EgressPolicy, deny, allow, is_process, is_allow, inherit_without_proxy,
  enforcement_report,
}

unfoldable pub capabilities : Host → HostLaboratory → LabCapabilities
capabilities h l = record {
  vm_isolation = not (is_process l.kind);
  clean_snapshot_restore = true;
  denies_all_egress = not (is_process l.kind) || h.network_isolation;
  per_dependency_egress = is_process l.kind && is_allow l.egress;
  executable_hiding = is_process l.kind;
  observation = not (is_process l.kind) || h.strace_available;
}

-- `NetworkMode`
pub data NetworkMode : Type 0 where
  inherit isolated : NetworkMode

pub data GatewayPlan : Type 0 where
  host_forward : (block : List Text) → GatewayPlan
  netns_deny host_deny_partial : GatewayPlan

-- What `run_trial` decides before the fork; `hides` is the executable that the shim is to leave out.
pub record Plan : Type 0 where
  pub network : NetworkMode
  pub inherit_env : List Text
  pub gateway : GatewayPlan
  pub enforcement : EnforcementReport
  pub hides : Option Text

-- The base posture: the environment, the gateway and the mechanism.
pub record Base : Type 0 where
  pub inherit_env : List Text
  pub gateway : GatewayPlan
  pub mechanism : Text

unfoldable pub base_deny : Host → HostLaboratory → Base
base_deny h l =
    if h.network_isolation
    then record {
      inherit_env = inherit_without_proxy l.offline_env;
      gateway = netns_deny;
      mechanism = lit "user-netns+gateway-deny";
    }
    else record {
      inherit_env = inherit_without_proxy l.offline_env;
      gateway = host_deny_partial;
      mechanism = lit "gateway-deny-partial";
    }

unfoldable pub base_allow : HostLaboratory → Base
base_allow l = record {
  inherit_env = inherit_without_proxy l.online_env;
  gateway = host_forward [];
  mechanism = lit "gateway-forward";
}

unfoldable pub base_for : EgressPolicy → Host → HostLaboratory → Base
unfolding base_deny base_allow
base_for deny h l = base_deny h l
base_for allow h l = base_allow l

unfoldable pub status_of : GatewayPlan → EnforcementStatus
status_of host_deny_partial = partially_enforced
status_of _ = enforced

unfoldable pub untreated : Base → Plan
unfolding status_of
untreated b = record {
  network = inherit;
  inherit_env = b.inherit_env;
  gateway = b.gateway;
  enforcement = enforcement_report unchanged b.mechanism (status_of b.gateway);
  hides = none;
}

unfoldable pub hiding : Text → Base → Plan
hiding name b = record {
  network = inherit;
  inherit_env = keep_if (λ v. not (text_eq.beq v (lit "PATH"))) b.inherit_env;
  gateway = b.gateway;
  enforcement = enforced_by (hide_executable name) (lit "path-shadow");
  hides = some name;
}

-- The identity itself, and the host before its last colon.
unfoldable pub blocked : Text → List Text
blocked identity = elim (rsplit_once b':' identity) [
  | none ↦ identity ∷ []
  | some (host, port) ↦ identity ∷ host ∷ []
]

cannot_deny : LabError
cannot_deny = unsupported (
    lit "deny-all egress cannot be enforced on this host (no unprivileged user namespaces); "
    ++ lit "refusing to run a weakened trial")

cannot_hide : LabError
cannot_hide = unsupported (
    lit "executable hiding is only enforceable in the host-process laboratory "
    ++ lit "(the guest VM resolves its own search path)")

unfoldable pub blocking : HostLaboratory → DependencyKey → Plan
unfolding blocked
blocking l dependency = record {
  network = inherit;
  inherit_env = inherit_without_proxy l.online_env;
  gateway = host_forward (blocked dependency.logical_identity);
  enforcement = enforced_by (block_dependency dependency) (lit "gateway-block");
  hides = none;
}

unfoldable pub denying : HostLaboratory → Plan
denying l = record {
  network = inherit;
  inherit_env = inherit_without_proxy l.offline_env;
  gateway = netns_deny;
  enforcement = enforced_by deny_all_egress (lit "user-netns+gateway-deny");
  hides = none;
}

-- The match of `run_trial` for the process laboratory, as far as the call of `build_shim_path`.
unfoldable pub posture : Host → HostLaboratory → Treatment → Answer LabError Plan
unfolding untreated hiding base_for cannot_deny cannot_hide
posture h l unchanged = answered (untreated (base_for l.egress h l))
posture h l deny_all_egress =
    if not (capabilities h l).denies_all_egress then refused cannot_deny else answered (denying l)
posture h l (hide_executable name) =
    if not (capabilities h l).executable_hiding
    then refused cannot_hide
    else answered (hiding name (base_for l.egress h l))
posture h l (block_dependency dependency) = answered (blocking l dependency)

guest_refusal : Treatment → LabError
guest_refusal t =
    unsupported (lit "the guest laboratory does not enforce `" ++ (Trial.describe t ++ lit "` yet"))

-- The match of `run_trial_guest`; a guest has no gateway.
pub record GuestPlan : Type 0 where
  pub network : NetworkMode
  pub inherit_env : List Text
  pub enforcement : EnforcementReport

unfoldable pub plan_guest : HostLaboratory → Treatment → Answer LabError GuestPlan
unfolding guest_refusal
plan_guest l unchanged = answered (record {
  network = inherit;
  inherit_env = l.online_env;
  enforcement = enforced_by unchanged (lit "guest-network");
})
plan_guest l deny_all_egress = answered (record {
  network = isolated;
  inherit_env = l.offline_env;
  enforcement = enforced_by deny_all_egress (lit "guest-no-net");
})
plan_guest l other = refused (guest_refusal other)
