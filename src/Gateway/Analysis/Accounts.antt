-- ===== src/Gateway/Analysis/Accounts.antt =====
-- crates/ovid-gateway/src/analysis.rs: an analysis accounts for every connect once.
use ovid.Prelude.{
  ◌%◌, ◌^◌, ◌≡◌, refl, sym, subst, ◌∙◌, Option, none, some, List, [], ◌∷◌, Text, length, contains,
  text_eq, Bool-cases, inl, inr, In, In-map, In-map_back, In-append_left,
}
use ovid.Prelude.Order.{values}
use ovid.Core.Event.{EventEnvelope}
use ovid.Core.Id.{OvidId}
use ovid.Packs.Schema.{Pack, ProtocolPack}
use ovid.Packs.Registry.{PackRegistry, classify_protocol}
use ovid.Gateway.Analysis.{
  Dial, ExternalObservation, dial_key, harvest_all, given_names, no_traffic, completed,
  with_protocol, push_new, push_all_new, name_evidence, analyze_network,
}
use ovid.Gateway.Analysis.Dials.{
  dials_of, dials_to, failed_dials, observation_key, ids, Tallies, grouped-Tallies, grouped-Has,
  observe_all-destinations,
}

push_new-In : {i : OvidId} (x : Text) (xs : List Text) → In i xs → In i (push_new x xs)
unfolding push_new
push_new-In x xs m = elim (Bool-cases (contains xs x)) [
  | inl t ↦ rw t m
  | inr f ↦ rw f (In-append_left (x ∷ []) m)
]

push_all_new-In : {i : OvidId} (more xs : List Text) → In i xs → In i (push_all_new more xs)
unfolding push_all_new
push_all_new-In [] xs m = m
push_all_new-In (x ∷ more) xs m = push_all_new-In more (push_new x xs) (push_new-In x xs m)

-- What the last loop leaves of an observation.
record Completes (o p : ExternalObservation) : Type 0 where
  same_key : observation_key p ≡ observation_key o
  same_attempts : p.attempts ≡ o.attempts
  same_failures : p.failures ≡ o.failures
  kept : (i : OvidId) → In i o.evidence → In i p.evidence

with_protocol-Completes :
    (found : Option (Pack × ProtocolPack)) (more : List OvidId) (o : ExternalObservation)
    → let p = with_protocol found o in
      Completes o (record p { evidence = push_all_new more p.evidence })
unfolding with_protocol
with_protocol-Completes none more o = record {
  same_key = refl;
  same_attempts = refl;
  same_failures = refl;
  kept = λ i m. push_all_new-In more o.evidence m;
}
with_protocol-Completes (some (pack, p)) more o = record {
  same_key = refl;
  same_attempts = refl;
  same_failures = refl;
  kept = λ i m. push_all_new-In more o.evidence m;
}

completed-Completes :
    (registry : PackRegistry) (names : List (Text × List OvidId)) (o : ExternalObservation)
    → Completes o (completed registry names o)
unfolding completed
completed-Completes registry names o =
    with_protocol-Completes (classify_protocol registry o.port none)
      (name_evidence names (with_protocol (classify_protocol registry o.port none) o).dns_name) o

-- The names that are known once all the DNS events are read.
abbrev pub known_names : List EventEnvelope → List (Text × Text) → List (Text × Text)
known_names events dns_names = (harvest_all (given_names dns_names) events).names

abbrev pub dials : List EventEnvelope → List (Text × Text) → List Dial
dials events dns_names = dials_of (known_names events dns_names) events

-- The counts of an observation are those of the connects to its destination, and it cites them.
pub record IsAccount (o : ExternalObservation) (ds : List Dial) : Type 0 where
  pub counted : o.attempts ≡ length ds % 2 ^ 64
  pub failed : o.failures ≡ length (failed_dials ds) % 2 ^ 64
  pub cited : (i : OvidId) → In i (ids ds) → In i o.evidence

completed-IsAccount :
    (ds : List Dial) (o p : ExternalObservation)
    → Completes o p
    → Tallies o (dials_to (observation_key o) ds)
    → IsAccount p (dials_to (observation_key p) ds)
completed-IsAccount ds o p c t =
    subst (λ k. IsAccount p (dials_to k ds)) (sym c.same_key)
      (record {
        counted = c.same_attempts ∙ t.counted;
        failed = c.same_failures ∙ t.failed;
        cited = λ i m. c.kept i (subst (In i) (sym t.cited) m);
      })

abbrev pub Accounts : List ExternalObservation → List Dial → Type 0
Accounts external ds =
    ((o : ExternalObservation) → In o external → IsAccount o (dials_to (observation_key o) ds))
    × ((d : Dial)
        → In d ds
        → (o : ExternalObservation) × In o external × (observation_key o ≡ dial_key d))

-- Each observation of an analysis counts exactly the connects to its destination, by the name that
-- is known for the address once all DNS events are read or else by the address, and exactly the
-- failed ones, and cites their events; each connect whose port is neither 53 nor 0 has an
-- observation.
pub analyze_network-Accounts :
    (events : List EventEnvelope) (registry : PackRegistry) (dns_names : List (Text × Text))
    → Accounts (analyze_network events registry dns_names).external (dials events dns_names)
unfolding analyze_network
analyze_network-Accounts events registry dns_names =
    let names = harvest_all (given_names dns_names) events in
    let ds = dials events dns_names in
    let e = observe_all-destinations names.names no_traffic events in
    (
      λ o m.
          let (r, n, q) = In-map_back (completed registry names.dns_evidence) _ m in
          subst (λ p. IsAccount p (dials_to (observation_key p) ds)) (sym q)
            (completed-IsAccount ds r _ (completed-Completes registry names.dns_evidence r)
              (grouped-Tallies ds r (subst (λ x. In r (values x)) e n))),
      λ d m.
          let (o, n, k) = grouped-Has ds m in
          let c = completed-Completes registry names.dns_evidence o in
          (
            completed registry names.dns_evidence o,
            In-map (completed registry names.dns_evidence) (subst (λ x. In o (values x)) (sym e) n),
            c.same_key ∙ k,
          ),
    )
