-- ===== src/Cli/Lab/Port/Honest.antt =====
-- crates/ovid-cli/src/lab.rs: the plan of a trial, its gateway and what it lets the workload inherit.
use ovid.Prelude.{
  ℕ, ◌≡◌, refl, sym, Bool, true, false, not, ◌||◌, Option, none, some, List, [], ◌∷◌, Text, lit, In,
  In-keep_if, inl, inr, contains, rsplit_once, Bool-cases, text_eq, arith, if◌then◌else◌,
}
use ovid.Domain.Dependency.{DependencyKey}
use ovid.Domain.Trial.{
  Treatment, unchanged, deny_all_egress, block_dependency, hide_executable, EnforcementStatus,
  enforced, partially_enforced, enforced_by,
}
use ovid.Application.Ports.{LabError, answered, refused}
use ovid.Gateway.Proxy.{endpoint, refuses, Upstream}
use ovid.Cli.Lab.{
  Host, HostLaboratory, EgressPolicy, deny, allow, inherit_without_proxy, proxy_vars,
  enforcement_report,
}
use ovid.Cli.Lab.Plans.{
  Plan, GatewayPlan, netns_deny, host_deny_partial, host_forward, posture, base_for, base_deny,
  status_of, untreated, hiding, denying, blocked, blocking, base_allow, capabilities,
}
use ovid.Cli.Lab.Port.Ensured.{Answered}
use ovid.Cli.Lab.Port.Running.{host_gateway}

abbrev is_partial : GatewayPlan → Bool
is_partial host_deny_partial = true
is_partial _ = false

abbrev is_untreated : Treatment → Bool
is_untreated unchanged = true
is_untreated _ = false

abbrev is_deny : EgressPolicy → Bool
is_deny deny = true
is_deny allow = false

-- Whether the gateway of a plan refuses a destination; the one in a namespace of its own denies.
abbrev pub realized : GatewayPlan → Option Upstream → Text → ℕ → Bool
realized g upstream host port = elim (host_gateway g upstream) [
  | none ↦ true
  | some (policy, chained) ↦ refuses policy host port
]

abbrev names : Text → Text → ℕ → Bool
names name host port = text_eq.beq name (endpoint host port) || text_eq.beq name host

-- The identity of a dependency, or what stands before its last colon, is the endpoint or the host.
abbrev pub is_taken : Text → Text → ℕ → Bool
is_taken identity host port = names identity host port || (elim (rsplit_once b':' identity) [
  | none ↦ false
  | some (before, after) ↦ names before host port
])

abbrev pub Refuses : HostLaboratory → Plan → (Text → ℕ → Bool) → Type 0
Refuses l p f = (host : Text) (port : ℕ) → realized p.gateway l.upstream host port ≡ f host port

-- What a treatment changes: the destinations that are refused, and the executable to hide.
abbrev pub Enforces : HostLaboratory → Treatment → Plan → Type 0
Enforces l unchanged p = Refuses l p (λ host port. is_deny l.egress) × (p.hides ≡ none)
Enforces l deny_all_egress p =
    Refuses l p (λ host port. true) × (p.gateway ≡ netns_deny) × (p.hides ≡ none)
Enforces l (block_dependency d) p = Refuses l p (is_taken d.logical_identity) × (p.hides ≡ none)
Enforces l (hide_executable name) p =
    Refuses l p (λ host port. is_deny l.egress)
    × ((v : Text) → In v p.inherit_env → text_eq.beq v (lit "PATH") ≡ false)
    × (p.hides ≡ some name)

-- What a plan says that it enforces, what it enforces, and the variables that the workload inherits.
pub record Promises (l : HostLaboratory) (t : Treatment) (p : Plan) : Type 0 where
  pub requested : p.enforcement.requested ≡ t
  pub status : p.enforcement.status ≡ (
      if is_partial p.gateway
      then if is_untreated t then partially_enforced else enforced
      else enforced)
  pub enforces : Enforces l t p
  pub unproxied : (v : Text) → In v p.inherit_env → contains proxy_vars v ≡ false

not_kept : (b : Bool) → not b ≡ true → b ≡ false
not_kept true h = sym h
not_kept false h = refl

abbrev Unproxied : List Text → Type 0
Unproxied env = (v : Text) → In v env → contains proxy_vars v ≡ false

inherit-Unproxied : (env : List Text) → Unproxied (inherit_without_proxy env)
unfolding inherit_without_proxy
inherit-Unproxied env v i =
    not_kept (contains proxy_vars v) (In-keep_if (λ w. not (contains proxy_vars w)) env i).1

base-Unproxied :
    (e : EgressPolicy) (h : Host) (l : HostLaboratory) → Unproxied (base_for e h l).inherit_env
unfolding base_for base_allow base_deny
base-Unproxied allow h l = inherit-Unproxied l.online_env
base-Unproxied deny h l = elim (Bool-cases h.network_isolation) [
  | inl t ↦ rw t (inherit-Unproxied l.offline_env)
  | inr f ↦ rw f (inherit-Unproxied l.offline_env)
]

base-refuses :
    (e : EgressPolicy) (h : Host) (l : HostLaboratory) (host : Text) (port : ℕ)
    → realized (base_for e h l).gateway l.upstream host port ≡ is_deny e
unfolding base_for base_allow base_deny host_gateway refuses
base-refuses allow h l host port = refl
base-refuses deny h l host port = elim (Bool-cases h.network_isolation) [
  | inl t ↦ rw t refl
  | inr f ↦ rw f refl
]

untreated-Promises :
    (h : Host) (l : HostLaboratory) → Promises l unchanged (untreated (base_for l.egress h l))
unfolding untreated enforcement_report status_of
untreated-Promises h l = record {
  requested = refl;
  status = by_gateway (base_for l.egress h l).gateway;
  enforces = (base-refuses l.egress h l, refl);
  unproxied = base-Unproxied l.egress h l;
}
  where
    by_gateway :
        (g : GatewayPlan) → status_of g ≡ (if is_partial g then partially_enforced else enforced)
    by_gateway (host_forward block) = refl
    by_gateway netns_deny = refl
    by_gateway host_deny_partial = refl

hiding-Promises :
    (h : Host) (l : HostLaboratory) (name : Text)
    → Promises l (hide_executable name) (hiding name (base_for l.egress h l))
unfolding hiding enforced_by
hiding-Promises h l name = record {
  requested = refl;
  status = by_gateway (base_for l.egress h l).gateway;
  enforces = (base-refuses l.egress h l, λ v i. not_kept _ (In-keep_if not_path env i).1, refl);
  unproxied = λ v i. base-Unproxied l.egress h l v (In-keep_if not_path env i).0;
}
  where
    env : List Text
    env = (base_for l.egress h l).inherit_env

    not_path : Text → Bool
    not_path v = not (text_eq.beq v (lit "PATH"))

    by_gateway :
        (g : GatewayPlan)
        → Path EnforcementStatus enforced (if is_partial g then enforced else enforced)
    by_gateway g = ground (arith)

blocking-refuses :
    (identity : Text) (upstream : Option Upstream) (host : Text) (port : ℕ)
    → realized (host_forward (blocked identity)) upstream host port ≡ is_taken identity host port
unfolding blocked host_gateway refuses contains
blocking-refuses identity upstream host port = by_colon (rsplit_once b':' identity)
  where
    by_colon :
        (o : Option (Text × Text))
        → let block = elim o as (λ o. List Text) [
          | none ↦ identity ∷ []
          | some (before, after) ↦ identity ∷ before ∷ []
        ] in
          realized (host_forward block) upstream host port ≡ (
            names identity host port
            || (elim o [ none ↦ false | some (before, after) ↦ names before host port ]))
    by_colon none = ground (arith)
    by_colon (some (before, after)) = ground (arith)

blocking-Promises :
    (l : HostLaboratory) (d : DependencyKey) → Promises l (block_dependency d) (blocking l d)
unfolding blocking enforced_by
blocking-Promises l d = record {
  requested = refl;
  status = refl;
  enforces = (blocking-refuses d.logical_identity l.upstream, refl);
  unproxied = inherit-Unproxied l.online_env;
}

denied-Promises : (l : HostLaboratory) → Promises l deny_all_egress (denying l)
unfolding denying enforced_by host_gateway
denied-Promises l = record {
  requested = refl;
  status = refl;
  enforces = (λ host port. refl, refl, refl);
  unproxied = inherit-Unproxied l.offline_env;
}

if-Answered :
    {A : Type 0} (P : A → Type 0) (e : LabError) (a : A) (b : Bool)
    → P a
    → Answered P (if b then refused e else answered a)
if-Answered P e a true p = tt
if-Answered P e a false p = p

pub posture-Promises :
    (h : Host) (l : HostLaboratory) (t : Treatment) → Answered (Promises l t) (posture h l t)
unfolding posture
posture-Promises h l unchanged = untreated-Promises h l
posture-Promises h l deny_all_egress =
    if-Answered (Promises l deny_all_egress) _ _ (not (capabilities h l).denies_all_egress)
      (denied-Promises l)
posture-Promises h l (hide_executable name) =
    if-Answered (Promises l (hide_executable name)) _ _ (not (capabilities h l).executable_hiding)
      (hiding-Promises h l name)
posture-Promises h l (block_dependency dependency) = blocking-Promises l dependency
