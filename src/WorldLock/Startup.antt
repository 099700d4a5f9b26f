-- ===== src/WorldLock/Startup.antt =====
-- crates/ovid-world/src/lib.rs: which dependencies a lock starts, and which it shows.
use mathlib.Core.List.{append_assoc, append-nil, map-append}
use ovid.Prelude.{
  ◌≡◌, refl, sym, ap, ◌∙◌, Bool, true, false, List, [], ◌∷◌, ◌++◌, map, Text, lit, keep_if,
  Bool-cases, inl, inr,
}
use ovid.WorldLock.{
  Treatment, World, WorldCodec, WorldDependency, WorldCell, SuccessSpec, Loop, dependency_id,
  from_world, lock_of, place_all, place, start_cell, start, service_cell, stub_cell,
  unresolved_cell, target_cell,
}

-- What runs before the target.
abbrev pub is_started : Treatment → Bool
is_started (Treatment.real_service pack image) = true
is_started (Treatment.stub protocol) = true
is_started _ = false

-- What stays visible: an unresolved dependency too.
abbrev pub is_shown : Treatment → Bool
is_shown (Treatment.unresolved reason) = true
is_shown (Treatment.real_service pack image) = true
is_shown (Treatment.stub protocol) = true
is_shown _ = false

abbrev pub started : List WorldDependency → List WorldDependency
started ds = keep_if (λ d. is_started d.treatment) ds

abbrev pub shown : List WorldDependency → List WorldDependency
shown ds = keep_if (λ d. is_shown d.treatment) ds

abbrev pub cell_id : WorldCell → Text
cell_id c = c.id

-- The ids of one dependency's cell, or none.
abbrev one : Bool → WorldDependency → List WorldDependency
one b d = keep_if (λ _. b) (d ∷ [])

place-lists :
    (s : Loop) (d : WorldDependency) (t : Treatment)
    → ((place s d t).startup ≡ s.startup ++ map dependency_id (one (is_started t) d))
      × (map cell_id (place s d t).cells
          ≡ map cell_id s.cells ++ map dependency_id (one (is_shown t) d))
unfolding place start_cell service_cell stub_cell unresolved_cell
place-lists s d (Treatment.real_service pack image) =
    (refl, map-append cell_id s.cells (service_cell d pack image ∷ []))
place-lists s d (Treatment.stub protocol) =
    (refl, map-append cell_id s.cells (stub_cell d protocol ∷ []))
place-lists s d (Treatment.unresolved reason) =
    (sym (append-nil s.startup), map-append cell_id s.cells (unresolved_cell d ∷ []))
place-lists s d (Treatment.fixture path) =
    (sym (append-nil s.startup), sym (append-nil (map cell_id s.cells)))
place-lists s d Treatment.absent =
    (sym (append-nil s.startup), sym (append-nil (map cell_id s.cells)))

join_one :
    (p : WorldDependency → Bool) (xs : List Text) (d : WorldDependency) (ds : List WorldDependency)
    → (xs ++ map dependency_id (one (p d) d)) ++ map dependency_id (keep_if p ds)
      ≡ xs ++ map dependency_id (keep_if p (d ∷ ds))
join_one p xs d ds = elim (Bool-cases (p d)) [
  | inl t ↦ rw t (append_assoc xs (d.id ∷ []) (map dependency_id (keep_if p ds)))
  | inr f ↦ rw f (ap (λ ys. ys ++ map dependency_id (keep_if p ds)) (append-nil xs))
]

place_all-lists :
    (s : Loop) (ds : List WorldDependency)
    → ((place_all s ds).startup ≡ s.startup ++ map dependency_id (started ds))
      × (map cell_id (place_all s ds).cells ≡ map cell_id s.cells ++ map dependency_id (shown ds))
unfolding place_all
place_all-lists s [] = (sym (append-nil s.startup), sym (append-nil (map cell_id s.cells)))
place_all-lists s (d ∷ ds) =
    let (p, q) = place-lists s d d.treatment in
    let (p', q') = place_all-lists (place s d d.treatment) ds in
    (
      p'
          ∙ (ap (λ xs. xs ++ map dependency_id (started ds)) p
              ∙ join_one (λ e. is_started e.treatment) s.startup d ds),
      q'
          ∙ (ap (λ xs. xs ++ map dependency_id (shown ds)) q
              ∙ join_one (λ e. is_shown e.treatment) (map cell_id s.cells) d ds),
    )

-- A lock starts the real services and the stubs, in the world's order, and then the target; its
-- cells are those, the unresolved dependencies at their places, and last the target.
pub from_world-startup :
    (k : WorldCodec) (w : World) (command : List Text) (success : SuccessSpec)
    → let lock = from_world k w command success in
      (lock.startup_order ≡ map dependency_id (started w.dependencies) ++ (lit "target" ∷ []))
      × (map cell_id lock.cells ≡ map dependency_id (shown w.dependencies) ++ (lit "target" ∷ []))
unfolding from_world lock_of target_cell
from_world-startup k w command success =
    let (p, q) = place_all-lists start w.dependencies in
    (
      ap (λ xs. xs ++ (lit "target" ∷ [])) p,
      map-append cell_id (place_all start w.dependencies).cells (target_cell w ∷ [])
          ∙ ap (λ xs. xs ++ (lit "target" ∷ [])) q,
    )
