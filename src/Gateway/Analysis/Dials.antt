-- ===== src/Gateway/Analysis/Dials.antt =====
-- crates/ovid-gateway/src/analysis.rs: the connects that a run's events show, and what the entry of a
-- destination is made of.
use mathlib.Core.Option.{some-injective}
use mathlib.Core.List.{append_assoc, append-nil}
use ovid.Prelude.{
  ◌+◌, ◌%◌, ◌^◌, ◌<◌, In, ◌≡◌, refl, sym, ap, subst, ◌∙◌, none, some, List, [], ◌∷◌, ◌++◌, Text,
  map, length, keep_if, unwrap_or, arith, text_eq, nat_eq, Bool-cases, inl, inr, if◌then◌else◌,
}
use ovid.Prelude.Order.{
  upsert, values, folded, folded_all, upsert_all, upsert_all-In, upsert_all-Has, pair_eq,
  pair_order, text_order, nat_order,
}
use ovid.Core.Event.{BoundaryEvent, EventEnvelope, socket_connect}
use ovid.Core.Id.{OvidId}
use ovid.Gateway.Analysis.{
  Dial, Key, Traffic, ExternalObservation, dial_key, dial_of, is_skipped, fresh, attempt, observe,
  observe_all,
}

-- The connects of one event: none where its port is skipped.
abbrev pub dials_at : List (Text × Text) → OvidId → BoundaryEvent → List Dial
dials_at names id (socket_connect address port original result hint) =
    if is_skipped port then [] else dial_of names id address port original result hint ∷ []
dials_at names id _ = []

abbrev pub dials_of : List (Text × Text) → List EventEnvelope → List Dial
dials_of names [] = []
dials_of names (e ∷ es) = dials_at names e.event_id e.event ++ dials_of names es

-- The connects of one destination.
abbrev pub dials_to : Key → List Dial → List Dial
dials_to k ds = keep_if (λ d. pair_eq.beq (dial_key d) k) ds

abbrev pub failed_dials : List Dial → List Dial
failed_dials ds = keep_if (λ d. d.failed) ds

abbrev pub first : Dial → ExternalObservation
first d = attempt d (fresh d)

abbrev pub observation_key : ExternalObservation → Key
observation_key o = (unwrap_or o.dns_name o.address, o.port)

observe-destinations :
    (names : List (Text × Text)) (s : Traffic) (id : OvidId) (e : BoundaryEvent)
    → (observe names s id e).destinations
      ≡ upsert_all dial_key first attempt s.destinations (dials_at names id e)
unfolding observe
observe-destinations names s id (socket_connect address port original result hint) =
    elim (Bool-cases (is_skipped port)) [ inl t ↦ rw t refl | inr f ↦ rw f refl ]
observe-destinations names s id e = refl

upsert_all-append :
    (m : List (Key × ExternalObservation)) (xs ys : List Dial)
    → upsert_all dial_key first attempt m (xs ++ ys)
      ≡ upsert_all dial_key first attempt (upsert_all dial_key first attempt m xs) ys
upsert_all-append m [] ys = refl
upsert_all-append m (d ∷ xs) ys =
    upsert_all-append (upsert (dial_key d) (attempt d) (first d) m) xs ys

pub observe_all-destinations :
    (names : List (Text × Text)) (s : Traffic) (es : List EventEnvelope)
    → (observe_all names s es).destinations
      ≡ upsert_all dial_key first attempt s.destinations (dials_of names es)
unfolding observe_all
observe_all-destinations names s [] = refl
observe_all-destinations names s (e ∷ es) =
    observe_all-destinations names (observe names s e.event_id e.event) es
    ∙ (ap (λ m. upsert_all dial_key first attempt m (dials_of names es))
          (observe-destinations names s e.event_id e.event)
        ∙ sym (
            upsert_all-append s.destinations (dials_at names e.event_id e.event)
              (dials_of names es)))

-- What an entry counts.
abbrev pub ids : List Dial → List OvidId
ids ds = map (λ d. d.event_id) ds

record Counts (v o : ExternalObservation) (ds : List Dial) : Type 0 where
  counted : o.attempts ≡ (v.attempts + length ds) % 2 ^ 64
  failed : o.failures ≡ (v.failures + length (failed_dials ds)) % 2 ^ 64
  cited : o.evidence ≡ v.evidence ++ ids ds

folded-Counts :
    (v : ExternalObservation) (ds : List Dial)
    → v.attempts < 2 ^ 64
    → v.failures < 2 ^ 64
    → Counts v (folded attempt v ds) ds
unfolding attempt
folded-Counts v [] a f = record {
  counted = omega arith;
  failed = omega arith;
  cited = sym (append-nil v.evidence);
}
folded-Counts v (d ∷ ds) a f =
    let h = folded-Counts (attempt d v) ds (omega arith) (ground arith) in
    record {
      counted = omega (arith, h.counted);
      failed = ground (arith, h.failed);
      cited = h.cited ∙ append_assoc v.evidence (d.event_id ∷ []) (ids ds);
    }

pub record Tallies (o : ExternalObservation) (ds : List Dial) : Type 0 where
  pub counted : o.attempts ≡ length ds % 2 ^ 64
  pub failed : o.failures ≡ length (failed_dials ds) % 2 ^ 64
  pub cited : o.evidence ≡ ids ds

-- The entry of a destination counts all the connects to it.
folded_all-Tallies :
    (ds : List Dial) (o : ExternalObservation)
    → folded_all first attempt none ds ≡ some o
    → Tallies o ds
unfolding attempt fresh
folded_all-Tallies [] o q = absurd (cc)
folded_all-Tallies (c ∷ ds) o q =
    let h = folded-Counts (first c) ds (omega arith) (ground arith) in
    let e = some-injective (folded attempt (first c) ds) o q in
    subst (λ o. Tallies o (c ∷ ds)) e
      (record {
        counted = omega (arith, h.counted);
        failed = ground (arith, h.failed);
        cited = h.cited;
      })

first-key : (d : Dial) → observation_key (first d) ≡ dial_key d
unfolding attempt fresh
first-key d = refl

attempt-key :
    (d : Dial) (o : ExternalObservation) → observation_key (attempt d o) ≡ observation_key o
unfolding attempt
attempt-key d o = refl

pub grouped-Tallies :
    (ds : List Dial) (o : ExternalObservation)
    → In o (values (upsert_all dial_key first attempt [] ds))
    → Tallies o (dials_to (observation_key o) ds)
grouped-Tallies ds o m =
    folded_all-Tallies (dials_to (observation_key o) ds) o
      (upsert_all-In dial_key first attempt observation_key first-key attempt-key ds m)

pub grouped-Has :
    (ds : List Dial) {d : Dial}
    → In d ds
    → (o : ExternalObservation) × In o (values (upsert_all dial_key first attempt [] ds))
      × (observation_key o ≡ dial_key d)
grouped-Has ds m = upsert_all-Has dial_key first attempt observation_key first-key attempt-key ds m
