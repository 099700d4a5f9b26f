-- ===== src/Examples/Locks.antt =====
-- crates/ovid-world/src/lib.rs at concrete inputs.
use mathlib.Core.List.Perm
use ovid.Prelude.{
  pos, ◌≡◌, ◌≢◌, refl, sym, ap, ◌∙◌, false≢true, text_eq, none, some, List, [], ◌∷◌, ◌++◌, Text,
  lit, show, map, In, here, there, arith, list_beq,
}
use ovid.Prelude.Order.{lookup, upsert, text_order, lex_le}
use ovid.WorldLock.{
  Treatment, World, WorldDependency, WorldCodec, SuccessSpec, exit_code, dependency_id, from_world,
  lock_of, place_all, start_cell, add_aliases, address, digest,
}
use ovid.WorldLock.Addresses.{from_world-same_address}
use ovid.WorldLock.Digests.{digest-eq_of_perm}
use ovid.WorldLock.Startup.{started, shown, cell_id, from_world-startup}

abbrev database : WorldDependency
database = record {
  id = lit "postgres";
  treatment = Treatment.real_service (lit "postgres") (lit "postgres@sha256:1");
  aliases = lit "db" ∷ lit "pg" ∷ [];
  port = some 5432;
  environment = [];
}

abbrev unknown : WorldDependency
unknown = record {
  id = lit "queue";
  treatment = Treatment.unresolved (lit "no pack");
  aliases = lit "mq" ∷ [];
  port = none;
  environment = [];
}

abbrev world : List WorldDependency → World
world ds = record { target = lit "app"; tools = lit "sh" ∷ []; dependencies = ds; environment = [] }

abbrev codec : WorldCodec
codec = record { sha256_hex = λ t. t; world_json = λ w. w.target }

abbrev passes : SuccessSpec
passes = exit_code (pos 0)

abbrev command : List Text
command = lit "make" ∷ lit "test" ∷ []

has_address :
    (lookup
        (lit "db")
        (from_world codec (world (unknown ∷ database ∷ [])) command passes).network.dns
      ≡ some (lit "10.203.0.20"))
    × (lookup
          (lit "pg")
          (from_world codec (world (unknown ∷ database ∷ [])) command passes).network.dns
        ≡ some (lit "10.203.0.20"))
unfolding lookup from_world lock_of place_all start_cell add_aliases address upsert lit show
    list_beq lex_le
has_address = (refl, refl)

from_world-same_address_example :
    (d : WorldDependency) × In d (started (world (unknown ∷ database ∷ [])).dependencies)
    × In (lit "db") d.aliases
    × In (lit "pg") d.aliases
from_world-same_address_example =
    from_world-same_address codec (world (unknown ∷ database ∷ [])) command passes (lit "db")
      (lit "pg") (lit "10.203.0.20") (omega arith) has_address.0 has_address.1

from_world-startup_example :
    let lock = from_world codec (world (unknown ∷ database ∷ [])) command passes in
    (lock.startup_order
      ≡ map dependency_id (started (unknown ∷ database ∷ [])) ++ (lit "target" ∷ []))
    × (map cell_id lock.cells
        ≡ map dependency_id (shown (unknown ∷ database ∷ [])) ++ (lit "target" ∷ []))
from_world-startup_example =
    from_world-startup codec (world (unknown ∷ database ∷ [])) command passes

apart : lit "queue" ≢ lit "postgres"
unfolding lit list_beq
apart h = false≢true ((text_eq.beq_iff (lit "queue") (lit "postgres")).1 h)

distinct :
    (a b : WorldDependency)
    → In a (unknown ∷ database ∷ [])
    → In b (unknown ∷ database ∷ [])
    → a.id ≡ b.id
    → a ≡ b
distinct a b (here p) (here q) h = p ∙ sym q
distinct a b (here p) (there (here q)) h =
    absurd (apart (sym (ap dependency_id p) ∙ h ∙ ap dependency_id q))
distinct a b (there (here p)) (here q) h =
    absurd (apart (sym (ap dependency_id q) ∙ sym h ∙ ap dependency_id p))
distinct a b (there (here p)) (there (here q)) h = p ∙ sym q
distinct a b (there (there m)) n h = elim m [ ]
distinct a b (here p) (there (there n)) h = elim n [ ]
distinct a b (there (here p)) (there (there n)) h = elim n [ ]

digest-eq_of_perm_example :
    digest codec (world (unknown ∷ database ∷ [])) ≡ digest codec (world (database ∷ unknown ∷ []))
digest-eq_of_perm_example =
    digest-eq_of_perm codec (world (unknown ∷ database ∷ [])) (world (database ∷ unknown ∷ []))
      distinct refl refl (Perm.refl (lit "sh" ∷ [])) (Perm.swap database unknown [])
