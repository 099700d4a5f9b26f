-- ===== src/WorldLock/Digests.antt =====
-- crates/ovid-world/src/lib.rs: the content digest forgets orders.
use mathlib.Core.HLevel.{hedberg}
use mathlib.Core.List.{Perm}
use mathlib.Core.Logic.{∥∥₁_elim}
use ovid.Prelude.{◌≡◌, ap, text_eq, eq_discrete}
use ovid.Prelude.Order.{sort, sort-eq_of_perm, sort_by-eq_of_perm, HasKeys, text_order}
use ovid.Core.Digest.{digest_eq, of_bytes}
use ovid.WorldLock.{World, WorldCodec, dependency_id, canonical, digest}

-- Two worlds that differ in the order of their tools and of their dependencies, whose ids are
-- distinct, have one digest.
pub digest-eq_of_perm :
    (k : WorldCodec) (v w : World)
    → HasKeys dependency_id v.dependencies
    → v.target ≡ w.target
    → v.environment ≡ w.environment
    → Perm v.tools w.tools
    → Perm v.dependencies w.dependencies
    → digest k v ≡ digest k w
unfolding digest canonical
digest-eq_of_perm k v w ids t e tools deps =
    let tools' : sort v.tools ≡ sort w.tools = sort-eq_of_perm (eq_discrete text_eq) tools in
    ∥∥₁_elim deps (hedberg (eq_discrete digest_eq) _ _) (λ p.
      let deps' = sort_by-eq_of_perm dependency_id ids p in
      ap (λ c. of_bytes k.sha256_hex (k.world_json c))
        (λ i. record { target = t i; tools = tools' i; dependencies = deps' i; environment = e i }))
