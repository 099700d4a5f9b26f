-- ===== src/Packs/Registry.antt =====
-- crates/ovid-packs/src/registry.rs: what the registry answers. The embedded packs and the walk over
-- a directory are input; a document is loaded by `load_documents`.
pub mod Classified
use ovid.Prelude.{
  ℕ, suc, Bool, true, false, not, ◌&&◌, ◌||◌, Option, none, some, List, [], ◌∷◌, ◌++◌, Text, lit,
  ltb, nat_beq, is_empty, is_none, is_some, any, all, find, map, contains, starts_with, ends_with,
  last_piece, Floats, at_least, text_eq, nat_eq, if◌then◌else◌,
}
use ovid.Prelude.Order.{
  sort_by, sort_with, lookup, keys, pair_eq, pair_order, text_order, nat_order,
}
use ovid.Repository.{RepoSnapshot, find_files_named}
use ovid.Packs.Schema.{
  Pack, PackBody, RunnerRecipe, ServicePack, ProtocolPack, ToolResolverPack, ResolverCandidate,
  Result, ok, err, runner_recipe, service_pack, protocol_pack, tool_resolver_pack, parse,
}

pub record PackRegistry : Type 0 where
  pub packs : List Pack

-- The loop of `load_yaml_documents` over the trimmed pieces of a file that are neither empty nor
-- comments only; a pack that was pushed before an error stays.
pub load_documents : (Text → Option Pack) → PackRegistry → ℕ → List Text → Result ℕ × PackRegistry
load_documents from_yaml registry count [] = (ok count, registry)
load_documents from_yaml registry count (document ∷ rest) = elim (parse from_yaml document) [
  | err e ↦ (err e, registry)
  | ok pack ↦
      load_documents from_yaml (record { packs = registry.packs ++ (pack ∷ []) }) (suc count) rest
]

runner_of : Pack → List (Pack × RunnerRecipe)
runner_of pack = elim (pack.body) [ runner_recipe r ↦ (pack, r) ∷ [] | _ ↦ [] ]

service_of : Pack → List (Pack × ServicePack)
service_of pack = elim (pack.body) [ service_pack s ↦ (pack, s) ∷ [] | _ ↦ [] ]

protocol_of : Pack → List (Pack × ProtocolPack)
protocol_of pack = elim (pack.body) [ protocol_pack p ↦ (pack, p) ∷ [] | _ ↦ [] ]

-- `iter().filter_map` with a list of at most one for an option, and `flat_map`.
unfoldable pub flat_map {ℓ κ} : {A : Type ℓ} {B : Type κ} → (A → List B) → List A → List B
flat_map f [] = []
flat_map f (x ∷ xs) = f x ++ flat_map f xs

unfoldable pub runner_recipes : PackRegistry → List (Pack × RunnerRecipe)
unfolding runner_of
runner_recipes registry = flat_map runner_of registry.packs

unfoldable pub service_packs : PackRegistry → List (Pack × ServicePack)
unfolding service_of
service_packs registry = flat_map service_of registry.packs

unfoldable pub protocol_packs : PackRegistry → List (Pack × ProtocolPack)
unfolding protocol_of
protocol_packs registry = flat_map protocol_of registry.packs

file_hit : RepoSnapshot → RunnerRecipe → Bool
file_hit snapshot recipe =
    any (λ name. not (is_empty (find_files_named snapshot name))) recipe.detect.any_files

ext_hit : RepoSnapshot → RunnerRecipe → Bool
ext_hit snapshot recipe =
    not (is_empty recipe.detect.extensions)
    && any (λ p. contains recipe.detect.extensions (last_piece b'.' p)) (keys snapshot.files)

-- Priorities 0 to 2; the smaller is the better.
priority : Text → Bool → ℕ
priority name file = if text_eq.beq name (lit "make") then 2 else if file then 0 else 1

pub record Match : Type 0 where
  pub rank : ℕ
  pub pack : Pack
  pub recipe : RunnerRecipe

-- One round of the loop of `detect_runners`.
detected : RepoSnapshot → Pack × RunnerRecipe → List Match
unfolding file_hit ext_hit priority
detected snapshot (pack, recipe) =
    if file_hit snapshot recipe || ext_hit snapshot recipe
    then record {
      rank = priority pack.metadata.name (file_hit snapshot recipe);
      pack = pack;
      recipe = recipe;
    }
      ∷ []
    else []

-- `(*priority, pack.metadata.name.clone())`
abbrev pub sort_key : Match → ℕ × Text
sort_key m = (m.rank, m.pack.metadata.name)

unfoldable pub detect_runners : PackRegistry → RepoSnapshot → List (Pack × RunnerRecipe)
unfolding detected
detect_runners registry snapshot =
    map (λ m. (m.pack, m.recipe))
      (sort_by sort_key (flat_map (detected snapshot) (runner_recipes registry)))

abbrev pub or_empty {ℓ} : {A : Type ℓ} → Option (List A) → List A
or_empty none = []
or_empty (some xs) = xs

candidates_of : (ToolResolverPack → Option (List ResolverCandidate)) → Pack → List ResolverCandidate
candidates_of pick pack = elim (pack.body) [ tool_resolver_pack r ↦ or_empty (pick r) | _ ↦ [] ]

-- Best first: the confidence descends.
abbrev pub more_confident : Floats → ResolverCandidate → ResolverCandidate → Bool
more_confident fl a b = at_least fl a.confidence b.confidence

unfoldable pub resolver_lookup :
    Floats
    → PackRegistry
    → (ToolResolverPack → Option (List ResolverCandidate))
    → List ResolverCandidate
unfolding candidates_of
resolver_lookup fl registry pick =
    sort_with (more_confident fl) (flat_map (candidates_of pick) registry.packs)

unfoldable pub resolve_executable : Floats → PackRegistry → Text → List ResolverCandidate
resolve_executable fl registry name = resolver_lookup fl registry (λ r. lookup name r.executables)

pub second_of {ℓ} : {A : Type ℓ} → Option (Text × A) → Option A
second_of none = none
second_of (some (suffix, v)) = some v

unfoldable pub resolve_file : Floats → PackRegistry → Text → List ResolverCandidate
unfolding second_of
resolve_file fl registry path =
    resolver_lookup fl registry (λ r. second_of (find (λ e. ends_with e.0 path) r.files))

-- Whether one of the prefixes starts the bytes; without bytes there is no hit.
bytes_hit : Option Text → ProtocolPack → Bool
bytes_hit none protocol = false
bytes_hit (some bytes) protocol =
    any (λ prefix. starts_with prefix bytes) protocol.matcher.first_bytes_ascii_prefix_any

-- `none` where the loop continues.
score_of : Bool → Bool → Option ℕ
score_of true true = some 3
score_of true false = some 2
score_of false true = some 1
score_of false false = none

unfoldable pub score : ℕ → Option Text → ProtocolPack → Option ℕ
unfolding bytes_hit score_of
score port first_bytes protocol =
    score_of (bytes_hit first_bytes protocol) (contains protocol.matcher.ports port)

abbrev pub Best : Type 0
Best = ℕ × Pack × ProtocolPack

-- `best.is_none_or(|(s, _, _)| score > s)`
unfoldable pub improved : Option Best → ℕ → Pack → ProtocolPack → Option Best
improved none s pack protocol = some (s, pack, protocol)
improved (some (best, p, q)) s pack protocol =
    if ltb best s then some (s, pack, protocol) else some (best, p, q)

-- One round, given the score.
unfoldable pub consider : Option Best → Pack → ProtocolPack → Option ℕ → Option Best
unfolding improved
consider best pack protocol none = best
consider best pack protocol (some s) = improved best s pack protocol

unfoldable pub best_match : ℕ → Option Text → Option Best → List (Pack × ProtocolPack) → Option Best
unfolding consider
best_match port first_bytes best [] = best
best_match port first_bytes best ((pack, protocol) ∷ rest) =
    best_match port first_bytes (consider best pack protocol (score port first_bytes protocol)) rest

pub without_score : Option Best → Option (Pack × ProtocolPack)
without_score none = none
without_score (some (s, pack, protocol)) = some (pack, protocol)

unfoldable pub classify_protocol : PackRegistry → ℕ → Option Text → Option (Pack × ProtocolPack)
unfolding best_match without_score
classify_protocol registry port first_bytes =
    without_score (best_match port first_bytes none (protocol_packs registry))
