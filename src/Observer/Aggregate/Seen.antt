-- ===== src/Observer/Aggregate/Seen.antt =====
-- crates/ovid-observer/src/aggregate.rs: what one round keeps true of `seen` and of the events.
use ovid.Prelude.{
  ℕ, ◌+◌, ◌%◌, ◌^◌, ◌≤◌, ◌<◌, ◌≡◌, refl, sym, ap, subst, ◌∙◌, inl, inr, true, false, false≢true,
  Option, none, some, List, [], ◌∷◌, ◌++◌, Text, arith, In, here, In-append_left, In-append_right,
  Bool-cases, text_eq, beq-false, if◌then◌else◌,
}
use ovid.Prelude.Order.{
  upsert, lookup, lookup-upsert, text_order, Ascending, upsert-Ascending, modified,
}
use ovid.Core.Event.{EventEnvelope}
use ovid.Observer.Aggregate.Signatures.{
  is_unique, unique_key-is, unique_key-injective, repeat_key-not_unique,
}
use ovid.Observer.Aggregate.{Loop, repeat_key, unique_key, record_event}

-- A retained event with the key.
abbrev pub Represented : Text → List EventEnvelope → Type 0
Represented k events = (e : EventEnvelope) × In e events × (repeat_key e.event ≡ some k)

-- What the loop keeps true.
pub record Kept (s : Loop) : Type 0 where
  pub ascending : Ascending s.seen
  pub keyed :
      (k : Text) (n : ℕ) → lookup k s.seen ≡ some n → is_unique k ≡ false → Represented k s.events
  pub fresh : (l : Text) (m : ℕ) → s.counter ≤ m → lookup (unique_key l m) s.seen ≡ none

extend :
    {k : Text} {events : List EventEnvelope} (e : EventEnvelope)
    → Represented k events
    → Represented k (events ++ (e ∷ []))
extend e (x, m, p) = (x, In-append_left (e ∷ []) m, p)

-- An entry of another key.
upsert-other :
    (k j : Text) (f : ℕ → ℕ) (v : ℕ) (m : List (Text × ℕ))
    → Ascending m
    → text_eq.beq k j ≡ false
    → lookup j (upsert k f v m) ≡ lookup j m
upsert-other k j f v m a d =
    lookup-upsert k j f v m a
    ∙ ap (λ b. if b then some (modified f v (lookup k m)) else lookup j m) d

unique_differs :
    (k : Text) (j : Text) → is_unique k ≡ false → is_unique j ≡ true → text_eq.beq k j ≡ false
unique_differs k j f t = elim (Bool-cases (text_eq.beq k j)) [
  | inl e ↦ absurd (false≢true (sym f ∙ (ap is_unique ((text_eq.beq_iff k j).0 e) ∙ t)))
  | inr d ↦ d
]

-- The entry of a represented key keeps the keys represented.
keyed-upsert :
    (s : Loop) (k : Text) (f : ℕ → ℕ) (events : List EventEnvelope)
    → Ascending s.seen
    → ((j : Text) (n : ℕ) → lookup j s.seen ≡ some n → is_unique j ≡ false → Represented j events)
    → (is_unique k ≡ false → Represented k events)
    → (j : Text) (n : ℕ) → lookup j (upsert k f 0 s.seen) ≡ some n
    → is_unique j ≡ false
    → Represented j events
keyed-upsert s k f events a old new j n q u = elim (Bool-cases (text_eq.beq k j)) [
  | inl t ↦
      let same = (text_eq.beq_iff k j).0 t in
      subst (λ x. Represented x events) same (new (ap is_unique same ∙ u))
  | inr d ↦ old j n (sym (upsert-other k j f 0 s.seen a d) ∙ q) u
]

fresh-upsert :
    (s : Loop) (k : Text) (f : ℕ → ℕ)
    → Kept s
    → is_unique k ≡ false
    → (l : Text) (m : ℕ) → s.counter ≤ m
    → lookup (unique_key l m) (upsert k f 0 s.seen) ≡ none
fresh-upsert s k f h u l m b =
    upsert-other k (unique_key l m) f 0 s.seen h.ascending
      (unique_differs k (unique_key l m) u (unique_key-is l m))
    ∙ h.fresh l m b

-- A repeatable event: it is represented afterwards, and the invariant holds.
pub repeat-Kept :
    (s : Loop) (e : EventEnvelope) (k : Text) (o : Option ℕ)
    → repeat_key e.event ≡ some k
    → lookup k s.seen ≡ o
    → Kept s
    → Kept (record_event s e (k, s.counter) o)
      × Represented k (record_event s e (k, s.counter) o).events
unfolding record_event
repeat-Kept s e k (some n) q f h =
    let u = repeat_key-not_unique e.event q in
    let old = h.keyed k n f u in
    (
      record {
        ascending = upsert-Ascending k _ 0 s.seen h.ascending;
        keyed = keyed-upsert s k _ s.events h.ascending h.keyed (λ _. old);
        fresh = fresh-upsert s k _ h u;
      },
      old,
    )
repeat-Kept s e k none q f h =
    let u = repeat_key-not_unique e.event q in
    let new : Represented k (s.events ++ (e ∷ [])) = (e, In-append_right s.events (here refl), q) in
    (
      record {
        ascending = upsert-Ascending k _ 0 s.seen h.ascending;
        keyed =
            keyed-upsert s k _ (s.events ++ (e ∷ [])) h.ascending
              (λ j n p v. extend e (h.keyed j n p v)) (λ _. new);
        fresh = fresh-upsert s k _ h u;
      },
      new,
    )

fresh_unique :
    (s : Loop) (k : Text) (f : ℕ → ℕ)
    → Kept s
    → (l : Text) (m : ℕ) → s.counter + 1 ≤ m
    → lookup (unique_key l m) (upsert (unique_key k s.counter) f 0 s.seen) ≡ none
fresh_unique s k f h l m b =
    upsert-other (unique_key k s.counter) (unique_key l m) f 0 s.seen h.ascending (
      beq-false text_eq (unique_key k s.counter) (unique_key l m)
        (λ q. ground (arith, unique_key-injective k l s.counter m q)))
    ∙ h.fresh l m (omega arith)

-- A state transition is retained itself.
pub unique-Kept :
    (s : Loop) (e : EventEnvelope) (l : Text) (o : Option ℕ)
    → s.counter + 1 < 2 ^ 64
    → lookup (unique_key l s.counter) s.seen ≡ o
    → Kept s
    → let s' = record_event s e (unique_key l s.counter, (s.counter + 1) % 2 ^ 64) o in
      Kept s' × In e s'.events × (s'.counter ≡ s.counter + 1)
unfolding record_event
unique-Kept s e l (some n) b q h = absurd (cc (h.fresh l s.counter (omega arith)))
unique-Kept s e l none b q h =
    let key = unique_key l s.counter in
    let next : (s.counter + 1) % 2 ^ 64 ≡ s.counter + 1 = omega arith in
    (
      record {
        ascending = upsert-Ascending key _ 0 s.seen h.ascending;
        keyed =
            keyed-upsert s key _ (s.events ++ (e ∷ [])) h.ascending
              (λ j n p v. extend e (h.keyed j n p v))
              (λ v. absurd (false≢true (sym v ∙ unique_key-is l s.counter)));
        fresh = rw next (fresh_unique s l _ h);
      },
      In-append_right s.events (here refl),
      next,
    )
