-- ===== src/Packs/Schema.antt =====
-- crates/ovid-packs/src/schema.rs: the types of packs and their validation. What `serde_yaml` makes
-- of a document is a parameter of `parse`.
use ovid.Prelude.{
  ℕ, Bool, true, false, not, Option, none, some, List, ◌++◌, Text, lit, has_text, is_empty, F64,
  text_eq,
}

pub record PackMetadata : Type 0 where
  pub name : Text
  pub version : Text
  pub license : Option Text
  pub digest : Option Text
  pub signer : Option Text

pub data PermissionLevel : Type 0 where
  denied declared : PermissionLevel

pub record PackPermissions : Type 0 where
  pub network : PermissionLevel
  pub host_files : PermissionLevel
  pub guest_capabilities : List Text

pub record RunnerDetect : Type 0 where
  pub any_files : List Text
  pub extensions : List Text

pub record RunnerCommands : Type 0 where
  pub inventory : List (List Text)
  pub install : List (List Text)
  pub build : List (List Text)
  pub test : List (List Text)
  pub start : List (List Text)

pub record RunnerRecipe : Type 0 where
  pub detect : RunnerDetect
  pub commands : RunnerCommands
  pub required_tools : List Text

pub record ServiceImage : Type 0 where
  pub reference : Text
  pub isolation : Text

pub record ServicePort : Type 0 where
  pub name : Text
  pub container : ℕ
  pub protocol : Text

pub record ServiceReadiness : Type 0 where
  pub command : List Text
  pub tcp_port : Option ℕ
  pub timeout_seconds : ℕ

pub record ServiceProvides : Type 0 where
  pub protocols : List Text
  pub aliases : List Text

pub record ServicePack : Type 0 where
  pub provides : ServiceProvides
  pub image : ServiceImage
  pub ports : List ServicePort
  pub readiness : ServiceReadiness
  pub configuration : List (Text × Text)

pub record ProtocolMatch : Type 0 where
  pub ports : List ℕ
  pub first_bytes_ascii_prefix_any : List Text
  pub alpn_any : List Text

pub record ProtocolPack : Type 0 where
  pub matcher : ProtocolMatch
  pub system : Text
  pub service_candidates : List Text

pub record ResolverCandidate : Type 0 where
  pub provider : Text
  pub package_name : Text
  pub version : Option Text
  pub confidence : F64

pub record ToolResolverPack : Type 0 where
  pub executables : List (Text × List ResolverCandidate)
  pub files : List (Text × List ResolverCandidate)

pub data PackBody : Type 0 where
  runner_recipe : RunnerRecipe → PackBody
  service_pack : ServicePack → PackBody
  protocol_pack : ProtocolPack → PackBody
  tool_resolver_pack : ToolResolverPack → PackBody

pub record Pack : Type 0 where
  pub api_version : Text
  pub metadata : PackMetadata
  pub permissions : PackPermissions
  pub body : PackBody

-- The cases of `OvidError::Pack` by what their texts say.
pub data PackError : Type 0 where
  parse_error unsupported_api_version name_required image_not_pinned : PackError

pub data Result {ℓ} (A : Type ℓ) : Type ℓ where
  ok : A → Result A
  err : PackError → Result A

abbrev pub ok_or {ℓ} : {A : Type ℓ} → Bool → PackError → Result A → Result A
ok_or true e r = r
ok_or false e r = err e

-- `Err` if the body is a service pack whose image is not pinned by a digest.
is_pinned : PackBody → Bool
is_pinned (service_pack service) = has_text (lit "@sha256:") service.image.reference
is_pinned _ = true

unfoldable pub validate : Pack → Result (Unit {0})
unfolding is_pinned
validate pack =
    ok_or (text_eq.beq pack.api_version (lit "ovid.dev/pack/v1")) unsupported_api_version (
      ok_or (not (is_empty pack.metadata.name)) name_required
        (ok_or (is_pinned pack.body) image_not_pinned (ok tt)))

pub validated : Pack → Result (Unit {0}) → Result Pack
validated pack (err e) = err e
validated pack (ok _) = ok pack

unfoldable pub parse : (Text → Option Pack) → Text → Result Pack
unfolding validated
parse from_yaml yaml = elim (from_yaml yaml) [
  | none ↦ err parse_error
  | some pack ↦ validated pack (validate pack)
]

unfoldable pub kind_label : PackBody → Text
kind_label (runner_recipe r) = lit "runner-recipe"
kind_label (service_pack s) = lit "service-pack"
kind_label (protocol_pack p) = lit "protocol-pack"
kind_label (tool_resolver_pack t) = lit "tool-resolver-pack"

unfoldable pub label : Pack → Text
label pack = pack.metadata.name ++ (lit "@" ++ pack.metadata.version)
