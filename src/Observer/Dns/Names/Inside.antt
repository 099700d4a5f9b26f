-- ===== src/Observer/Dns/Names/Inside.antt =====
-- crates/ovid-observer/src/dns.rs: where a name ends, and what it is made of.
use ovid.Prelude.{
  ℕ, zero, suc, ◌+◌, ◌*◌, ◌/◌, ◌%◌, ◌≤◌, ◌<◌, ◌≡◌, refl, subst, inl, inr, Bool, true, not, ◌&&◌,
  ◌||◌, Option, none, some, List, [], ◌∷◌, ◌++◌, Text, lit, length, get_elem?, all, map, is_empty,
  leb, ltb, nat_beq, unwrap_or, join, arith, Bool-cases,
}
use ovid.Observer.Dns.Names.{
  NameLoop, Step, going, finished, finish, jump, push_label, at_length, name_next, result,
  name_round, name_loop, name_start, name_fuel, read_name, is_plausible, is_upper, to_lower, or_end,
}

-- A byte of a host name in lower case.
abbrev pub is_host : ℕ → Bool
is_host b = is_plausible b && not (is_upper b)

get_elem?-length : (xs : List ℕ) (i : ℕ) {x : ℕ} → get_elem? xs i ≡ some x → i < length xs
get_elem?-length [] i h = absurd (cc)
get_elem?-length (x ∷ xs) zero h = omega arith
get_elem?-length (x ∷ xs) (suc i) h = omega (arith, get_elem?-length xs i h)

to_lower-host : (b : ℕ) → is_plausible b ≡ true → is_host (to_lower b) ≡ true
to_lower-host b h = ground arith

map-to_lower : (xs : List ℕ) → all is_plausible xs ≡ true → all is_host (map to_lower xs) ≡ true
map-to_lower [] h = refl
map-to_lower (x ∷ xs) h = ground (arith, to_lower-host x, map-to_lower xs)

abbrev hosts : List Text → Bool
hosts labels = all (all is_host) labels

all-append :
    (p : ℕ → Bool) (xs ys : Text) → all p xs ≡ true → all p ys ≡ true → all p (xs ++ ys) ≡ true
all-append p [] ys g h = h
all-append p (x ∷ xs) ys g h = ground (arith, all-append p xs ys)

all-join : (labels : List Text) → hosts labels ≡ true → all is_host (join (lit ".") labels) ≡ true
unfolding join lit
all-join [] h = refl
all-join (x ∷ []) h = ground arith
all-join (x ∷ y ∷ rest) h =
    all-append is_host x (b'.' ∷ join (lit ".") (y ∷ rest)) (ground arith)
      (all-join (y ∷ rest) (ground arith))

hosts-append :
    (labels : List Text) (x : Text)
    → hosts labels ≡ true
    → all is_host x ≡ true
    → hosts (labels ++ (x ∷ [])) ≡ true
hosts-append [] x g h = ground arith
hosts-append (y ∷ labels) x g h = ground (arith, hosts-append labels x)

-- Where the name may end: after its start, and within the packet.
abbrev Ends : List ℕ → ℕ → ℕ → Type 0
Ends bytes o e = (o < e) × (e ≤ length bytes)

abbrev Passed : List ℕ → ℕ → ℕ → Option ℕ → Type 0
Passed bytes o at none = o ≤ at
Passed bytes o at (some e) = Ends bytes o e

abbrev Inside : List ℕ → ℕ → NameLoop → Type 0
Inside bytes o s = Passed bytes o s.offset s.end_offset × (hosts s.labels ≡ true)

abbrev Result : List ℕ → ℕ → Option (Text × ℕ) → Type 0
Result bytes o none = Unit
Result bytes o (some (name, e)) = Ends bytes o e × (all is_host name ≡ true)

abbrev Stays : List ℕ → ℕ → Step → Type 0
Stays bytes o (going s) = Inside bytes o s
Stays bytes o (finished r) = Result bytes o r

or_end-Passed :
    (bytes : List ℕ) (o at next i : ℕ) (e : Option ℕ)
    → Passed bytes o at e
    → at < next
    → next ≤ length bytes
    → Passed bytes o i (or_end e next)
or_end-Passed bytes o at next i none h g k = (omega arith, k)
or_end-Passed bytes o at next i (some e) h g k = h

or_end-Ends :
    (bytes : List ℕ) (o at next i : ℕ) (e : Option ℕ)
    → Passed bytes o at e
    → at < next
    → next ≤ length bytes
    → Ends bytes o (unwrap_or (or_end e next) i)
or_end-Ends bytes o at next i none h g k = (omega arith, k)
or_end-Ends bytes o at next i (some e) h g k = h

finish-Result :
    (bytes : List ℕ) (o : ℕ) (s : NameLoop)
    → Inside bytes o s
    → s.offset < length bytes
    → Result bytes o (finish s (s.offset + 1))
unfolding finish
finish-Result bytes o s h b = elim (Bool-cases (is_empty s.labels)) [
  | inl t ↦ rw t tt
  | inr f ↦ rw f (
    or_end-Ends bytes o s.offset (s.offset + 1) s.offset s.end_offset h.0 (omega arith)
        (omega arith),
    all-join s.labels h.1,
  )
]

jump-Stays :
    (bytes : List ℕ) (o : ℕ) (s : NameLoop) (len : ℕ) (low : Option ℕ)
    → get_elem? bytes (s.offset + 1) ≡ low
    → Inside bytes o s
    → Stays bytes o (jump bytes s len low)
unfolding jump
jump-Stays bytes o s len none q h = tt
jump-Stays bytes o s len (some low) q h =
    elim (Bool-cases (ltb 10 (s.jumps + 1) || leb (length bytes) (len % 64 * 256 + low))) [
      | inl t ↦ rw t tt
      | inr f ↦
          let b = get_elem?-length bytes (s.offset + 1) q in
          rw f (
            or_end-Passed bytes o s.offset (s.offset + 2) _ s.end_offset h.0 (omega arith)
                (omega arith),
            h.1,
          )
    ]

further :
    (bytes : List ℕ) (o at n : ℕ) (e : Option ℕ) → Passed bytes o at e → Passed bytes o (at + n) e
further bytes o at n none h = omega arith
further bytes o at n (some e) h = h

push_label-Stays :
    (bytes : List ℕ) (o : ℕ) (s : NameLoop) (len : ℕ) (label : Option (List ℕ))
    → Inside bytes o s
    → Stays bytes o (push_label s len label)
unfolding push_label
push_label-Stays bytes o s len none h = tt
push_label-Stays bytes o s len (some label) h = elim (Bool-cases (all is_plausible label)) [
  | inr f ↦ rw f tt
  | inl t ↦ rw t (
    further bytes o s.offset (1 + len) s.end_offset h.0,
    hosts-append s.labels (map to_lower label) h.1 (map-to_lower label t),
  )
]

at_length-Stays :
    (bytes : List ℕ) (o : ℕ) (s : NameLoop) (len : Option ℕ)
    → get_elem? bytes s.offset ≡ len
    → Inside bytes o s
    → Stays bytes o (at_length bytes s len)
unfolding at_length
at_length-Stays bytes o s none q h = tt
at_length-Stays bytes o s (some len) q h = elim (Bool-cases (nat_beq len 0)) [
  | inl z ↦ rw z (finish-Result bytes o s h (get_elem?-length bytes s.offset q))
  | inr n ↦ rw n (elim (Bool-cases (nat_beq (len / 64 % 4) 3)) [
    | inl p ↦ rw p (jump-Stays bytes o s len _ refl h)
    | inr o' ↦ rw o' (elim (Bool-cases (ltb 63 len || ltb 32 (length s.labels))) [
      | inl t ↦ rw t tt
      | inr f ↦ rw f (push_label-Stays bytes o s len _ h)
    ])
  ])
]

next-Stays :
    (bytes : List ℕ) (o : ℕ) (rest : NameLoop → Step) (t : Step)
    → Stays bytes o t
    → ((s : NameLoop) → Inside bytes o s → Stays bytes o (rest s))
    → Stays bytes o (name_next rest t)
next-Stays bytes o rest (going s) h k = k s h
next-Stays bytes o rest (finished r) h k = h

name_loop-Stays :
    (bytes : List ℕ) (o fuel : ℕ) (s : NameLoop)
    → Inside bytes o s
    → Stays bytes o (name_loop bytes fuel s)
unfolding name_loop name_round
name_loop-Stays bytes o zero s h = h
name_loop-Stays bytes o (suc fuel) s h =
    next-Stays bytes o (name_loop bytes fuel) _ (at_length-Stays bytes o s _ refl h)
      (name_loop-Stays bytes o fuel)

result-Result : (bytes : List ℕ) (o : ℕ) (t : Step) → Stays bytes o t → Result bytes o (result t)
result-Result bytes o (going s) h = tt
result-Result bytes o (finished r) h = h

-- A name that is read ends after its start and within the packet, so that the reader advances,
-- and is made of lower-case host bytes only, whatever the bytes of the packet are.
pub read_name-inside :
    (bytes : List ℕ) (offset : ℕ) (name : Text) (e : ℕ)
    → read_name bytes offset ≡ some (name, e)
    → (offset < e) × (e ≤ length bytes) × (all is_host name ≡ true)
unfolding read_name
read_name-inside bytes offset name e h =
    let stays =
      result-Result bytes offset _
        (name_loop-Stays bytes offset name_fuel (name_start offset) (omega arith, refl)) in
    let r = subst (Result bytes offset) h stays in (r.0.0, r.0.1, r.1)
