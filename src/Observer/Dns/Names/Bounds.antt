-- ===== src/Observer/Dns/Names/Bounds.antt =====
-- crates/ovid-observer/src/dns.rs: the loop of `read_name` ends, and stays within the packet.
use ovid.Prelude.{
  ℕ, zero, suc, ◌+◌, ◌-◌, ◌*◌, ◌/◌, ◌%◌, ◌≤◌, ◌<◌, ◌≡◌, refl, ap, inl, inr, ◌||◌, Option, none,
  some, List, [], ◌∷◌, Text, length, all, map, leb, ltb, nat_beq, arith, length-append, Bool-cases,
}
use ovid.Observer.Dns.Names.{
  NameLoop, Step, going, finished, jump, push_label, at_length, result, name_next, name_round,
  name_loop, name_start, name_fuel, read_name, is_plausible, to_lower,
}

-- The jumps and the labels that may still come.
abbrev budget : NameLoop → ℕ
budget s = (10 - s.jumps) + (33 - length s.labels)

-- What a round does to the budget.
abbrev Spends : NameLoop → Step → Type 0
Spends s (finished r) = Unit
Spends s (going s') = (s'.jumps ≤ 10) × (length s'.labels ≤ 33) × (budget s' < budget s)

jump-Spends :
    (bytes : List ℕ) (s : NameLoop) (len : ℕ) (low : Option ℕ)
    → s.jumps ≤ 10
    → length s.labels ≤ 33
    → Spends s (jump bytes s len low)
unfolding jump
jump-Spends bytes s len none j l = tt
jump-Spends bytes s len (some low) j l =
    elim (Bool-cases (ltb 10 (s.jumps + 1) || leb (length bytes) (len % 64 * 256 + low))) [
      | inl t ↦ rw t tt
      | inr f ↦ let few : s.jumps < 10 = ground arith in rw f (omega arith, l, omega arith)
    ]

push_label-Spends :
    (s : NameLoop) (len : ℕ) (label : Option (List ℕ))
    → s.jumps ≤ 10
    → length s.labels ≤ 32
    → Spends s (push_label s len label)
unfolding push_label
push_label-Spends s len none j l = tt
push_label-Spends s len (some label) j l = elim (Bool-cases (all is_plausible label)) [
  | inr f ↦ rw f tt
  | inl t ↦
      let more = length-append s.labels (map to_lower label ∷ []) in
      rw t (j, omega (arith, more), omega (arith, more))
]

at_length-Spends :
    (bytes : List ℕ) (s : NameLoop) (len : Option ℕ)
    → s.jumps ≤ 10
    → length s.labels ≤ 33
    → Spends s (at_length bytes s len)
unfolding at_length
at_length-Spends bytes s none j l = tt
at_length-Spends bytes s (some len) j l = elim (Bool-cases (nat_beq len 0)) [
  | inl z ↦ rw z tt
  | inr n ↦ rw n (elim (Bool-cases (nat_beq (len / 64 % 4) 3)) [
    | inl p ↦ rw p (jump-Spends bytes s len _ j l)
    | inr o ↦ rw o (elim (Bool-cases (ltb 63 len || ltb 32 (length s.labels))) [
      | inl t ↦ rw t tt
      | inr f ↦
          let few : length s.labels ≤ 32 = ground arith in rw f (push_label-Spends s len _ j few)
    ])
  ])
]

abbrev Finishes : Step → Type 0
Finishes t = (r : Option (Text × ℕ)) × (t ≡ finished r)

next-Finishes :
    (rest : NameLoop → Step) (s : NameLoop) (t : Step)
    → Spends s t
    → ((s' : NameLoop)
        → s'.jumps ≤ 10
        → length s'.labels ≤ 33
        → budget s' < budget s
        → Finishes (rest s'))
    → Finishes (name_next rest t)
next-Finishes rest s (going s') h k = k s' h.0 h.1 h.2
next-Finishes rest s (finished r) h k = (r, refl)

name_loop-Finishes :
    (bytes : List ℕ) (fuel : ℕ) (s : NameLoop)
    → s.jumps ≤ 10
    → length s.labels ≤ 33
    → budget s < fuel
    → Finishes (name_loop bytes fuel s)
unfolding name_loop name_round
name_loop-Finishes bytes zero s j l b = absurd (omega arith)
name_loop-Finishes bytes (suc fuel) s j l b =
    next-Finishes (name_loop bytes fuel) s _ (at_length-Spends bytes s _ j l)
      (λ s' j' l' b'. name_loop-Finishes bytes fuel s' j' l' (omega arith))

-- `read_name` ends on every input: `name_fuel` rounds of its loop give the result that it returns.
pub read_name-Finishes :
    (bytes : List ℕ) (offset : ℕ)
    → (r : Option (Text × ℕ)) × (name_loop bytes name_fuel (name_start offset) ≡ finished r)
      × (read_name bytes offset ≡ r)
unfolding read_name
read_name-Finishes bytes offset =
    let h =
      name_loop-Finishes bytes name_fuel (name_start offset) (omega arith) (omega arith)
        (omega arith) in
    (h.0, h.1, ap result h.1)
