-- ===== src/WorldLock/Addresses.antt =====
-- crates/ovid-world/src/lib.rs: the addresses that a lock gives to its aliases.
use mathlib.Core.List.{append_assoc, append-nil}
use mathlib.Core.Option.{some-injective}
use ovid.Prelude.{
  ℕ, ◌+◌, ◌%◌, ◌≤◌, ◌≡◌, refl, sym, ap, subst, ◌∙◌, ◌⊎◌, inl, inr, Option, some, List, [], ◌∷◌,
  ◌++◌, Text, lit, arith, drop, length, length-append, get_elem?, get_elem?-append,
  get_elem?-length, get_elem?-lt, get_elem?-In, In, here, there, show-injective, if◌then◌else◌,
  text_eq, Bool-cases, unwrap_or,
}
use ovid.Prelude.Order.{lookup, Ascending, lookup-upsert_const, upsert-Ascending, text_order}
use ovid.WorldLock.{
  Treatment, World, WorldCodec, WorldDependency, SuccessSpec, Loop, from_world, lock_of, WorldCell,
  place_all, place, start_cell, start, service_cell, stub_cell, add_aliases, address,
}
use ovid.WorldLock.Startup.{started, is_started}

address-injective : (m n : ℕ) → address m ≡ address n → m ≡ n
unfolding address lit
address-injective m n h = show-injective m n (ap (drop 9) h)

add_aliases-Ascending :
    (names : List Text) (x : Text) (m : List (Text × Text))
    → Ascending m
    → Ascending (add_aliases names x m)
unfolding add_aliases
add_aliases-Ascending [] x m h = h
add_aliases-Ascending (a ∷ names) x m h =
    add_aliases-Ascending names x _ (upsert-Ascending a (λ _. x) x m h)

lookup-add_aliases :
    (names : List Text) (x : Text) (m : List (Text × Text)) (b : Text) {y : Text}
    → Ascending m
    → lookup b (add_aliases names x m) ≡ some y
    → (In b names × (y ≡ x)) ⊎ (lookup b m ≡ some y)
unfolding add_aliases
lookup-add_aliases [] x m b h q = inr q
lookup-add_aliases (a ∷ names) x m b h q =
    elim (lookup-add_aliases names x _ b (upsert-Ascending a (λ _. x) x m h) q) [
      | inl (i, e) ↦ inl (there i, e)
      | inr r ↦
          let step = sym (lookup-upsert_const a b x m h) ∙ r in
          elim (Bool-cases (text_eq.beq a b)) [
            | inl t ↦ inl (
              here (sym ((text_eq.beq_iff a b).0 t)),
              ap (λ (o : Option Text). unwrap_or o []) (sym (rw t at step)),
            )
            | inr f ↦ inr (rw f at step)
          ]
    ]

-- What the loop knows after it started `done`.
record IsServed (done : List WorldDependency) (s : Loop) : Type 0 where
  next_host : s.address_host ≡ (20 + length done) % 256
  ascending : Ascending s.dns
  served :
      (b : Text) {y : Text}
      → lookup b s.dns ≡ some y
      → (i : ℕ) × (d : WorldDependency) × (get_elem? done i ≡ some d)
        × In b d.aliases
        × (y ≡ address ((20 + i) % 256))

place-IsServed :
    (done : List WorldDependency) (s : Loop) (d : WorldDependency) (cell : WorldCell)
    → IsServed done s
    → IsServed (done ++ (d ∷ [])) (start_cell s d cell)
unfolding start_cell
place-IsServed done s d cell h = record {
  next_host = omega (arith, h.next_host, length-append done (d ∷ []));
  ascending = add_aliases-Ascending d.aliases (address s.address_host) s.dns h.ascending;
  served = λ b q.
      elim (lookup-add_aliases d.aliases (address s.address_host) s.dns b h.ascending q) [
        | inl (i, e) ↦ (length done, d, get_elem?-length done [] d, i, e ∙ ap address h.next_host)
        | inr r ↦
            let (i, c, p, m, e) = h.served b r in (i, c, get_elem?-append done (d ∷ []) i p, m, e)
      ];
}

nothing-IsServed : IsServed [] start
unfolding lookup
nothing-IsServed = record { next_host = refl; ascending = tt; served = λ b q. absurd (cc) }

-- One round, and what the later rounds keep.
placed-IsServed :
    (done : List WorldDependency) (s : Loop) (d : WorldDependency) (ds : List WorldDependency)
    (t : Treatment)
    → IsServed done s
    → ((xs : List WorldDependency) (r : Loop)
        → IsServed xs r
        → IsServed (xs ++ started ds) (place_all r ds))
    → IsServed
        (done ++ (if is_started t then d ∷ started ds else started ds))
        (place_all (place s d t) ds)
unfolding place
placed-IsServed done s d ds (Treatment.real_service pack image) h rest =
    subst (λ xs. IsServed xs (place_all (place s d (Treatment.real_service pack image)) ds))
      (append_assoc done (d ∷ []) (started ds))
      (rest _ _ (place-IsServed done s d (service_cell d pack image) h))
placed-IsServed done s d ds (Treatment.stub protocol) h rest =
    subst (λ xs. IsServed xs (place_all (place s d (Treatment.stub protocol)) ds))
      (append_assoc done (d ∷ []) (started ds))
      (rest _ _ (place-IsServed done s d (stub_cell d protocol) h))
placed-IsServed done s d ds (Treatment.unresolved reason) h rest =
    rest done _ (record { next_host = h.next_host; ascending = h.ascending; served = h.served })
placed-IsServed done s d ds (Treatment.fixture path) h rest = rest done s h
placed-IsServed done s d ds Treatment.absent h rest = rest done s h

place_all-IsServed :
    (done : List WorldDependency) (s : Loop) (ds : List WorldDependency)
    → IsServed done s
    → IsServed (done ++ started ds) (place_all s ds)
unfolding place_all
place_all-IsServed done s [] h = subst (λ xs. IsServed xs s) (sym (append-nil done)) h
place_all-IsServed done s (d ∷ ds) h =
    placed-IsServed done s d ds d.treatment h (λ xs r. place_all-IsServed xs r ds)

-- Where at most 236 dependencies are started, two aliases with one address are aliases of one
-- started dependency.
pub from_world-same_address :
    (k : WorldCodec) (w : World) (command : List Text) (success : SuccessSpec) (a b x : Text)
    → length (started w.dependencies) ≤ 236
    → lookup a (from_world k w command success).network.dns ≡ some x
    → lookup b (from_world k w command success).network.dns ≡ some x
    → (d : WorldDependency) × In d (started w.dependencies) × In a d.aliases × In b d.aliases
unfolding from_world lock_of
from_world-same_address k w command success a b x small p q =
    let h = place_all-IsServed [] start w.dependencies nothing-IsServed in
    let (i, d, gi, ai, ei) = h.served a p in
    let (j, c, gj, bj, ej) = h.served b q in
    let same = address-injective _ _ (sym ei ∙ ej) in
    let li = get_elem?-lt (started w.dependencies) i gi in
    let lj = get_elem?-lt (started w.dependencies) j gj in
    let e : j ≡ i = omega arith in
    let d' : c ≡ d =
      some-injective c d (sym gj ∙ (ap (get_elem? (started w.dependencies)) e ∙ gi)) in
    (d, get_elem?-In (started w.dependencies) i gi, ai, subst (λ c. In b c.aliases) d' bj)
