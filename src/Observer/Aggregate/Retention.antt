-- ===== src/Observer/Aggregate/Retention.antt =====
-- crates/ovid-observer/src/aggregate.rs: what survives the reduction.
use mathlib.Core.Option.{some-injective}
use ovid.Prelude.{
  ℕ, ◌+◌, ◌%◌, ◌^◌, ◌≤◌, ◌<◌, ◌≡◌, refl, sym, subst, ◌∙◌, inl, inr, true, false, false≢true, Option,
  none, some, List, [], ◌∷◌, Text, arith, length, In, here, there, In-append_left, Bool-cases,
  Option-cases, text_eq,
}
use ovid.Prelude.Order.{lookup, text_order}
use ovid.Core.Event.{BoundaryEvent, EventEnvelope, type_label, is_failure, file_opened}
use ovid.Observer.Aggregate.Seen.{Represented, Kept, repeat-Kept, unique-Kept}
use ovid.Observer.Aggregate.{
  Loop, start, signature, is_noise, repeat_key, unique_key, record_event, round, loop, aggregate,
}

-- The event is retained, or for a repeatable one an event of its key.
abbrev pub Covered : EventEnvelope → List EventEnvelope → Type 0
Covered e events =
    (repeat_key e.event ≡ none → In e events)
    × ((k : Text) → repeat_key e.event ≡ some k → Represented k events)

abbrev Advanced : Loop → EventEnvelope → Loop → Type 0
Advanced s e s' =
    Kept s' × (s'.counter ≤ s.counter + 1) × (is_noise e.event ≡ false → Covered e s'.events)

signature-none :
    (e : BoundaryEvent) (c : ℕ)
    → repeat_key e ≡ none
    → signature e c ≡ (unique_key (type_label e) c, (c + 1) % 2 ^ 64)
unfolding signature
signature-none e c q = rw (q, signature) refl

signature-some :
    (e : BoundaryEvent) (c : ℕ) {k : Text} → repeat_key e ≡ some k → signature e c ≡ (k, c)
unfolding signature
signature-some e c q = rw (q, signature) refl

at_most : {m n : ℕ} → m ≡ n → m ≤ n
at_most h = omega arith

at_most_same : {m n : ℕ} → m ≡ n → m ≤ n + 1
at_most_same h = omega arith

record_event-counter :
    (s : Loop) (e : EventEnvelope) (g : Text × ℕ) (o : Option ℕ)
    → (record_event s e g o).counter ≡ g.1
unfolding record_event
record_event-counter s e (k, c) none = refl
record_event-counter s e (k, c) (some n) = refl

record_event-In :
    (s : Loop) (e : EventEnvelope) (g : Text × ℕ) (o : Option ℕ) (x : EventEnvelope)
    → In x s.events
    → In x (record_event s e g o).events
unfolding record_event
record_event-In s e (k, c) none x h = In-append_left (e ∷ []) h
record_event-In s e (k, c) (some n) x h = h

round-Advanced :
    (s : Loop) (e : EventEnvelope) → s.counter + 1 < 2 ^ 64 → Kept s → Advanced s e (round s e)
unfolding round
round-Advanced s e b h = elim (Bool-cases (is_noise e.event)) [
  | inl t ↦ rw t (
    record { ascending = h.ascending; keyed = h.keyed; fresh = h.fresh },
    omega arith,
    λ f. absurd (false≢true (sym f)),
  )
  | inr f ↦ rw f (elim (Option-cases (repeat_key e.event)) [
    | inl q ↦
        let kept = unique-Kept s e (type_label e.event) _ b refl h in
        rw (signature-none e.event s.counter q)
          (kept.0, at_most kept.2, λ _. (λ _. kept.1, λ k p. absurd (cc)))
    | inr (k, q) ↦
        let kept = repeat-Kept s e k _ q refl h in
        rw (signature-some e.event s.counter q) (
          kept.0,
          at_most_same (record_event-counter s e (k, s.counter) _),
          λ _. (
            λ p. absurd (cc),
            λ j p.
                subst
                  (λ x. Represented x (record_event s e (k, s.counter) (lookup k s.seen)).events)
                  (some-injective _ _ (sym q ∙ p)) kept.1,
          ),
        )
  ])
]

round-In : (s : Loop) (e x : EventEnvelope) → In x s.events → In x (round s e).events
unfolding round
round-In s e x h = elim (Bool-cases (is_noise e.event)) [
  | inl t ↦ rw t h
  | inr f ↦ rw f (record_event-In s e (signature e.event s.counter) _ x h)
]

loop-In :
    (s : Loop) (es : List EventEnvelope) (x : EventEnvelope)
    → In x s.events
    → In x (loop s es).events
unfolding loop
loop-In s [] x h = h
loop-In s (e ∷ es) x h = loop-In (round s e) es x (round-In s e x h)

loop-Covered :
    (s : Loop) (es : List EventEnvelope) (x : EventEnvelope)
    → s.counter + length es < 2 ^ 64
    → Kept s
    → In x es
    → is_noise x.event ≡ false
    → Covered x (loop s es).events
unfolding loop
loop-Covered s [] x b h i n = elim i [ ]
loop-Covered s (e ∷ es) x b h (here p) n =
    let c = (round-Advanced s e (omega arith) h).2 (subst (λ y. is_noise y.event ≡ false) p n) in
    subst (λ y. Covered y (loop (round s e) es).events) (sym p)
      (
        λ q. loop-In (round s e) es e (c.0 q),
        λ k q. (let (y, m, r) = c.1 k q in (y, loop-In (round s e) es y m, r)),
      )
loop-Covered s (e ∷ es) x b h (there i) n =
    let a = round-Advanced s e (omega arith) h in
    let less = a.1 in loop-Covered (round s e) es x (omega arith) a.0 i n

start-Kept : (counter : ℕ) → Kept (start counter)
unfolding lookup
start-Kept counter = record {
  ascending = tt;
  keyed = λ k n p u. absurd (cc);
  fresh = λ l m b. refl;
}

-- Every event of the input that is not a plain successful open of a noise path is retained, or
-- for a kind of event that may repeat, an event with the same signature is, when the process-wide
-- counter does not overflow meanwhile.
pub aggregate-Covered :
    (counter : ℕ) (input : List EventEnvelope) (e : EventEnvelope)
    → counter + length input < 2 ^ 64
    → In e input
    → is_noise e.event ≡ false
    → Covered e (aggregate counter input).events
unfolding aggregate
aggregate-Covered counter input e b i n =
    loop-Covered (start counter) input e b (start-Kept counter) i n

noise-not_failure : (e : BoundaryEvent) → is_failure e ≡ true → is_noise e ≡ false
unfolding is_failure is_noise
noise-not_failure (file_opened path none write) h = absurd (cc)
noise-not_failure (file_opened path (some r) write) h = refl
noise-not_failure _ h = refl

-- No failure is lost: a failing event of the input, whatever its path, is retained or an event
-- with the same signature is, when the process-wide counter does not overflow meanwhile.
aggregate-failure :
    (counter : ℕ) (input : List EventEnvelope) (e : EventEnvelope)
    → counter + length input < 2 ^ 64
    → In e input
    → is_failure e.event ≡ true
    → Covered e (aggregate counter input).events
aggregate-failure counter input e b i f =
    aggregate-Covered counter input e b i (noise-not_failure e.event f)
