-- ===== src/Packs/Registry/Classified.antt =====
-- crates/ovid-packs/src/registry.rs: what `classify_protocol` answers.
use mathlib.Core.List.{append_assoc, append-nil}
use ovid.Prelude.{
  ℕ, ◌≤◌, ◌<◌, ◌≡◌, refl, sym, ap, subst, ◌∙◌, ◌⊎◌, inl, inr, Bool, true, false, Option, none, some,
  List, [], ◌∷◌, ◌++◌, Text, arith, ltb, unwrap_or, All, All-append, All-imp, contains, nat_eq,
  Bool-cases, Option-cases,
}
use ovid.Packs.Schema.{Pack, ProtocolPack}
use ovid.Packs.Registry.{
  PackRegistry, Best, score, score_of, bytes_hit, improved, consider, best_match, classify_protocol,
  without_score, protocol_packs,
}

score_of-pos : (b p : Bool) {s : ℕ} → score_of b p ≡ some s → 0 < s
unfolding score_of
score_of-pos b p h = ground arith

module _ (port : ℕ) (first_bytes : Option Text) where
  -- How well a pack matches: 0 is not at all, 1 the port, 2 the first bytes, 3 both.
  abbrev pub rating : Pack × ProtocolPack → ℕ
  rating e = unwrap_or (score port first_bytes e.1) 0

  -- The answer matches, no pack matches better, and no earlier one as well.
  abbrev pub IsBestOf : List (Pack × ProtocolPack) → Option (Pack × ProtocolPack) → Type 0
  IsBestOf packs none = All (λ e. score port first_bytes e.1 ≡ none) packs
  IsBestOf packs (some e) =
      (earlier : List (Pack × ProtocolPack)) × (later : List (Pack × ProtocolPack)) × (packs
        ≡ earlier ++ (e ∷ later))
      × All (λ x. rating x < rating e) earlier
      × All (λ x. rating x ≤ rating e) later
      × (0 < rating e)

  -- With the score that the loop keeps beside the pack.
  abbrev Keeps : List (Pack × ProtocolPack) → Option Best → Type 0
  Keeps done none = IsBestOf done none
  Keeps done (some (s, p, q)) = IsBestOf done (some (p, q)) × (score port first_bytes q ≡ some s)

  none-rating : (n : ℕ) (x : Pack × ProtocolPack) → score port first_bytes x.1 ≡ none → rating x ≤ n
  none-rating n x h = rw h (omega arith)

  rating-eq : (x : Pack × ProtocolPack) {s : ℕ} → score port first_bytes x.1 ≡ some s → rating x ≡ s
  rating-eq x h = ap (λ (o : Option ℕ). unwrap_or o 0) h

  rated-pos : (x : Pack × ProtocolPack) {s : ℕ} → score port first_bytes x.1 ≡ some s → 0 < rating x
  unfolding score
  rated-pos x h = omega (
    arith,
    rating-eq x h,
    score_of-pos (bytes_hit first_bytes x.1) (contains x.1.matcher.ports port) h,
  )

  unrated_below :
      (x y : Pack × ProtocolPack) {s : ℕ}
      → score port first_bytes x.1 ≡ none
      → score port first_bytes y.1 ≡ some s
      → rating x < rating y
  unrated_below x y n h = omega (arith, none-rating 0 x n, rated-pos y h)

  rated_lt :
      (x y : Pack × ProtocolPack) {s t : ℕ}
      → score port first_bytes x.1 ≡ some s
      → score port first_bytes y.1 ≡ some t
      → ltb s t ≡ true
      → rating x < rating y
  rated_lt x y {s} {t} h k l =
      let below : s < t = ground arith in omega (arith, rating-eq x h, rating-eq y k)

  rated_le :
      (x y : Pack × ProtocolPack) {s t : ℕ}
      → score port first_bytes x.1 ≡ some s
      → score port first_bytes y.1 ≡ some t
      → ltb s t ≡ false
      → rating y ≤ rating x
  rated_le x y {s} {t} h k l =
      let below : t ≤ s = ground arith in omega (arith, rating-eq x h, rating-eq y k)

  later_grows :
      (done : List (Pack × ProtocolPack)) (e x : Pack × ProtocolPack)
      → IsBestOf done (some e)
      → rating x ≤ rating e
      → IsBestOf (done ++ (x ∷ [])) (some e)
  later_grows done e x (earlier, later, split, less, most, pos) h = (
    earlier,
    later ++ (x ∷ []),
    ap (λ xs. xs ++ (x ∷ [])) split ∙ append_assoc earlier (e ∷ later) (x ∷ []),
    less,
    All-append (λ y. rating y ≤ rating e) later (x ∷ []) most (h, tt),
    pos,
  )

  new_best :
      (done : List (Pack × ProtocolPack)) (x : Pack × ProtocolPack)
      → All (λ y. rating y < rating x) done
      → 0 < rating x
      → IsBestOf (done ++ (x ∷ [])) (some x)
  new_best done x less pos = (done, [], refl, less, tt, pos)

  All-below :
      (done : List (Pack × ProtocolPack)) (e x : Pack × ProtocolPack)
      → IsBestOf done (some e)
      → rating e < rating x
      → All (λ y. rating y < rating x) done
  All-below done e x (earlier, later, split, less, most, pos) h =
      subst (All (λ y. rating y < rating x)) (sym split) (
        All-append (λ y. rating y < rating x) earlier (e ∷ later)
          (All-imp {P = λ y. rating y < rating e} earlier (λ y k. omega arith) less)
          (h, All-imp {P = λ y. rating y ≤ rating e} later (λ y k. omega arith) most))

  consider-Keeps :
      (done : List (Pack × ProtocolPack)) (best : Option Best) (p : Pack) (q : ProtocolPack)
      → Keeps done best
      → Keeps (done ++ ((p, q) ∷ [])) (consider best p q (score port first_bytes q))
  unfolding consider improved
  consider-Keeps done best p q h = by_score best h (Option-cases (score port first_bytes q))
    where
      by_score :
          (best : Option Best)
          → Keeps done best
          → (score port first_bytes q ≡ none) ⊎ ((s : ℕ) × (score port first_bytes q ≡ some s))
          → Keeps (done ++ ((p, q) ∷ [])) (consider best p q (score port first_bytes q))
      by_score none h (inl n) =
          subst (λ o. Keeps (done ++ ((p, q) ∷ [])) (consider none p q o)) (sym n)
            (All-append (λ e. score port first_bytes e.1 ≡ none) done ((p, q) ∷ []) h (n, tt))
      by_score (some (s, p', q')) (h, e) (inl n) =
          subst (λ o. Keeps (done ++ ((p, q) ∷ [])) (consider (some (s, p', q')) p q o)) (sym n)
            (later_grows done (p', q') (p, q) h (none-rating _ (p, q) n), e)
      by_score none h (inr (t, e)) =
          subst (λ o. Keeps (done ++ ((p, q) ∷ [])) (consider none p q o)) (sym e)
            (
              new_best done (p, q) (All-imp done (λ x n. unrated_below x (p, q) n e) h)
                  (rated-pos (p, q) e),
              e,
            )
      by_score (some (s, p', q')) (h, e') (inr (t, e)) =
          subst (λ o. Keeps (done ++ ((p, q) ∷ [])) (consider (some (s, p', q')) p q o)) (sym e)
            (elim (Bool-cases (ltb s t)) [
              | inl l ↦
                  let up = rated_lt (p', q') (p, q) e' e l in
                  rw l (
                    new_best done (p, q) (All-below done (p', q') (p, q) h up) (rated-pos (p, q) e),
                    e,
                  )
              | inr g ↦
                  rw g (later_grows done (p', q') (p, q) h (rated_le (p', q') (p, q) e' e g), e')
            ])

  best_match-Keeps :
      (done : List (Pack × ProtocolPack)) (best : Option Best) (packs : List (Pack × ProtocolPack))
      → Keeps done best
      → Keeps (done ++ packs) (best_match port first_bytes best packs)
  unfolding best_match
  best_match-Keeps done best [] h = subst (λ xs. Keeps xs best) (sym (append-nil done)) h
  best_match-Keeps done best ((p, q) ∷ packs) h =
      subst
        (λ xs.
          Keeps xs
            (best_match port first_bytes (consider best p q (score port first_bytes q)) packs))
        (append_assoc done ((p, q) ∷ []) packs)
        (best_match-Keeps (done ++ ((p, q) ∷ [])) _ packs (consider-Keeps done best p q h))

  without_score-Keeps :
      (packs : List (Pack × ProtocolPack)) (best : Option Best)
      → Keeps packs best
      → IsBestOf packs (without_score best)
  unfolding without_score
  without_score-Keeps packs none h = h
  without_score-Keeps packs (some (s, p, q)) h = h.0

-- The protocol pack that is answered matches the destination, no pack matches it better, and no
-- earlier one as well; none is answered exactly where none matches.
pub classify_protocol-IsBestOf :
    (registry : PackRegistry) (port : ℕ) (first_bytes : Option Text)
    → IsBestOf port first_bytes
        (protocol_packs registry)
        (classify_protocol registry port first_bytes)
unfolding classify_protocol
classify_protocol-IsBestOf registry port first_bytes =
    without_score-Keeps port first_bytes (protocol_packs registry) _
      (best_match-Keeps port first_bytes [] none (protocol_packs registry) tt)
