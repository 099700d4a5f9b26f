-- ===== src/Observer/Aggregate/Accounting.antt =====
-- crates/ovid-observer/src/aggregate.rs: nothing disappears without being counted.
use ovid.Prelude.{
  ℕ, suc, ◌+◌, ◌%◌, ◌^◌, ◌<◌, ◌≡◌, refl, subst, Option, none, some, List, [], ◌∷◌, Text, arith,
  length, length-append, keep_if, ltb, text_eq, Bool-cases, inl, inr,
}
use ovid.Prelude.Order.{
  upsert, lookup, text_order, Ascending, lookup-Below, Below-trans, upsert-Ascending,
}
use ovid.Core.Event.{EventEnvelope}
use ovid.Observer.Aggregate.{Loop, start, signature, is_noise, record_event, round, loop, aggregate}

-- How many events were collapsed.
pub total : List (Text × ℕ) → ℕ
total [] = 0
total ((k, n) ∷ m) = n + total m

total-keep_if : (m : List (Text × ℕ)) → total (keep_if (λ e. ltb 0 e.1) m) ≡ total m
unfolding total
total-keep_if [] = refl
total-keep_if ((k, n) ∷ m) = ground (arith, total-keep_if m)

-- A new key adds nothing; a known one adds one, below the bound of the counters.
total-upsert_new :
    (k : Text) (f : ℕ → ℕ) (m : List (Text × ℕ))
    → lookup k m ≡ none
    → total (upsert k f 0 m) ≡ total m
unfolding total lookup upsert
total-upsert_new k f [] h = refl
total-upsert_new k f ((j, n) ∷ m) h = ground (arith, text_eq.beq_iff j k, total-upsert_new k f m)

total-upsert_old :
    (k : Text) (m : List (Text × ℕ)) (c : ℕ)
    → Ascending m
    → lookup k m ≡ some c
    → total m + 1 < 2 ^ 64
    → total (upsert k (λ c. (c + 1) % 2 ^ 64) 0 m) ≡ total m + 1
unfolding total lookup upsert
total-upsert_old k [] c a h b = absurd (cc)
total-upsert_old k ((j, n) ∷ m) c a h b = elim (Bool-cases (text_eq.beq j k)) [
  | inl t ↦ rw t (omega arith)
  | inr d ↦ elim (Bool-cases (text_order.le k j)) [
    | inl l ↦
        let h' : lookup k m ≡ some c = rw d at h in
        let absent = lookup-Below k m (Below-trans k j n m l d a.0) in absurd (cc)
    | inr g ↦
        let h' : lookup k m ≡ some c = rw d at h in
        rw (d, g) (omega (arith, total-upsert_old k m c a.1 h' (omega arith)))
  ]
]

-- What the loop has accounted for, after `n` events.
record Accounted (n : ℕ) (s : Loop) : Type 0 where
  ascending : Ascending s.seen
  sum : length s.events + total s.seen + s.noise_dropped ≡ n

record_event-Accounted :
    (n : ℕ) (s : Loop) (e : EventEnvelope) (sig : Text) (c : ℕ) (o : Option ℕ)
    → lookup sig s.seen ≡ o
    → Accounted n s
    → suc n < 2 ^ 64
    → Accounted (suc n) (record_event s e (sig, c) o)
unfolding record_event
record_event-Accounted n s e sig c (some k) f h b = record {
  ascending = upsert-Ascending sig _ 0 s.seen h.ascending;
  sum = omega (arith, h.sum, total-upsert_old sig s.seen k h.ascending f (omega (arith, h.sum)));
}
record_event-Accounted n s e sig c none f h b = record {
  ascending = upsert-Ascending sig _ 0 s.seen h.ascending;
  sum =
      omega (arith, h.sum, total-upsert_new sig (λ x. x) s.seen f, length-append s.events (e ∷ []));
}

round-Accounted :
    (n : ℕ) (s : Loop) (e : EventEnvelope)
    → Accounted n s
    → suc n < 2 ^ 64
    → Accounted (suc n) (round s e)
unfolding round
round-Accounted n s e h b = elim (Bool-cases (is_noise e.event)) [
  | inl t ↦ rw t (record { ascending = h.ascending; sum = omega (arith, h.sum) })
  | inr f ↦ rw f (
      record_event-Accounted n s e (signature e.event s.counter).0 (signature e.event s.counter).1 _
        refl h b)
]

loop-Accounted :
    (n : ℕ) (s : Loop) (es : List EventEnvelope)
    → Accounted n s
    → n + length es < 2 ^ 64
    → Accounted (n + length es) (loop s es)
unfolding loop
loop-Accounted n s [] h b = subst (λ m. Accounted m s) (omega arith) h
loop-Accounted n s (e ∷ es) h b =
    subst (λ m. Accounted m (loop (round s e) es)) (omega arith)
      (loop-Accounted (suc n) (round s e) es (round-Accounted n s e h (omega arith)) (omega arith))

-- For fewer than 2^64 events, the retained events, the collapsed repetitions and the dropped noise
-- add up to the events that came in.
pub aggregate-accounts :
    (counter : ℕ) (input : List EventEnvelope)
    → length input < 2 ^ 64
    → let r = aggregate counter input in
      (length r.events + total r.collapsed + r.noise_dropped ≡ r.input_count)
      × (r.input_count ≡ length input)
unfolding aggregate total
aggregate-accounts counter input b =
    let h =
      loop-Accounted 0 (start counter) input (record { ascending = tt; sum = omega arith })
        (omega arith) in
    (omega (arith, h.sum, total-keep_if (loop (start counter) input).seen), refl)
