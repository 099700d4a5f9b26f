-- ===== src/Observer/Dns/Names/Encoded.antt =====
-- crates/ovid-observer/src/dns.rs: reading a name as a resolver writes it.
use mathlib.Core.List.{append_assoc, append-nil}
use ovid.Prelude.{
  ℕ, zero, suc, ◌+◌, ◌*◌, ◌/◌, ◌%◌, ◌≤◌, ◌<◌, ◌≡◌, refl, sym, ap, ap₂, ◌∙◌, true, false, ◌||◌,
  Option, none, some, List, [], ◌∷◌, ◌++◌, Text, lit, length, get_elem?, take, drop, all, map, leb,
  ltb, nat_beq, unwrap_or, join, arith, length-append, All,
}
use ovid.Observer.Dns.Names.{
  NameLoop, Step, going, finished, finish, jump, push_label, at_length, name_next, result,
  name_round, name_loop, name_start, get_range, name_fuel, read_name, is_plausible, to_lower,
  or_end, read_u16,
}

-- A label of a host name: 1 to 63 plausible bytes.
abbrev pub IsLabel : Text → Type 0
IsLabel l = (0 < length l) × (length l ≤ 63) × (all is_plausible l ≡ true)

-- The wire form: each label after its length, and the root.
abbrev pub encode_name : List Text → List ℕ
encode_name [] = 0 ∷ []
encode_name (l ∷ labels) = length l ∷ (l ++ encode_name labels)

-- Its length, without the root.
abbrev pub name_length : List Text → ℕ
name_length [] = 0
name_length (l ∷ labels) = (1 + length l) + name_length labels

abbrev pub lower_name : List Text → Text
lower_name labels = join (lit ".") (map (map to_lower) labels)

pub get_elem?-drop :
    (bytes : List ℕ) (o : ℕ) {x : ℕ} {xs : List ℕ}
    → drop o bytes ≡ x ∷ xs
    → get_elem? bytes o ≡ some x
get_elem?-drop [] zero h = absurd (cc)
get_elem?-drop [] (suc o) h = absurd (cc)
get_elem?-drop (b ∷ bytes) zero h = ap head h
  where
    head : List ℕ → Option ℕ
    head [] = none
    head (y ∷ ys) = some y
get_elem?-drop (b ∷ bytes) (suc o) h = get_elem?-drop bytes o h

drop-suc :
    (bytes : List ℕ) (o : ℕ) {x : ℕ} {xs : List ℕ} → drop o bytes ≡ x ∷ xs → drop (suc o) bytes ≡ xs
drop-suc [] zero h = absurd (cc)
drop-suc [] (suc o) h = absurd (cc)
drop-suc (b ∷ bytes) zero h = ap (drop 1) h
drop-suc (b ∷ bytes) (suc o) h = drop-suc bytes o h

pub drop-at : (bytes : List ℕ) {m n : ℕ} → m ≡ n → drop m bytes ≡ drop n bytes
drop-at bytes h = ap (λ i. drop i bytes) h

pub drop-past :
    (xs bytes : List ℕ) (o : ℕ) {ys : List ℕ}
    → drop o bytes ≡ xs ++ ys
    → drop (o + length xs) bytes ≡ ys
drop-past [] bytes o h = drop-at bytes (omega arith) ∙ h
drop-past (x ∷ xs) bytes o h =
    drop-at bytes (omega arith) ∙ drop-past xs bytes (suc o) (drop-suc bytes o h)

pub drop-length :
    (bytes : List ℕ) (o : ℕ) {x : ℕ} {xs : List ℕ}
    → drop o bytes ≡ x ∷ xs
    → o + length (x ∷ xs) ≡ length bytes
drop-length [] zero h = absurd (cc)
drop-length [] (suc o) h = absurd (cc)
drop-length (b ∷ bytes) zero h = omega (arith, ap (λ ys. length ys) h)
drop-length (b ∷ bytes) (suc o) h = omega (arith, drop-length bytes o h)

take-length : (xs ys : List ℕ) → take (length xs) (xs ++ ys) ≡ xs
take-length [] ys = refl
take-length (x ∷ xs) ys = ap (λ zs. x ∷ zs) (take-length xs ys)

-- The slice of a part that is not empty.
pub get_range-drop :
    (x : ℕ) (xs ys bytes : List ℕ) (o : ℕ)
    → drop o bytes ≡ (x ∷ xs) ++ ys
    → get_range bytes o (length (x ∷ xs)) ≡ some (x ∷ xs)
unfolding get_range
get_range-drop x xs ys bytes o h =
    let size = drop-length bytes o h in
    let fits : leb (o + length (x ∷ xs)) (length bytes) ≡ true =
      ground (arith, length-append xs ys) in
    rw (fits, h) (ap (λ zs. some (x ∷ zs)) (take-length xs ys))

pub read_u16-drop :
    (bytes : List ℕ) (o : ℕ) {h l : ℕ} {xs : List ℕ}
    → drop o bytes ≡ h ∷ l ∷ xs
    → read_u16 bytes o ≡ some (h * 256 + l)
unfolding read_u16
read_u16-drop bytes o {h = h} {l = l} {xs = xs} p =
    let first = get_elem?-drop bytes o p in
    let second = get_elem?-drop bytes (o + 1) (drop-past (h ∷ []) bytes o p) in
    rw (first, second) refl

-- The first byte of a label's wire form is no root and no pointer.
label_round :
    (bytes : List ℕ) (s : NameLoop) (l : Text) (rest : List ℕ)
    → IsLabel l
    → drop s.offset bytes ≡ length l ∷ (l ++ rest)
    → length s.labels ≤ 32
    → name_round bytes s
      ≡ going (record s {
        labels = s.labels ++ (map to_lower l ∷ []);
        offset = s.offset + (1 + length l);
      })
unfolding name_round at_length push_label
label_round bytes s [] rest h d n = absurd (omega (arith, h.0))
label_round bytes s (c ∷ cs) rest h d n =
    let first = get_elem?-drop bytes s.offset d in
    let slice =
      get_range-drop c cs rest bytes (s.offset + 1)
        (drop-past (length (c ∷ cs) ∷ []) bytes s.offset d) in
    let no_root : nat_beq (length (c ∷ cs)) 0 ≡ false = ground (arith, h.0) in
    let no_pointer : nat_beq (length (c ∷ cs) / 64 % 4) 3 ≡ false = ground (arith, h.1) in
    let fits : (ltb 63 (length (c ∷ cs)) || ltb 32 (length s.labels)) ≡ false =
      ground (arith, h.1) in
    rw (first, no_root, no_pointer, fits, slice, h.2) refl

root_round :
    (bytes : List ℕ) (s : NameLoop) {rest : List ℕ}
    → drop s.offset bytes ≡ 0 ∷ rest
    → name_round bytes s ≡ finished (finish s (s.offset + 1))
unfolding name_round at_length
root_round bytes s d = let first = get_elem?-drop bytes s.offset d in rw first refl

-- After the labels of a name.
abbrev past_labels : NameLoop → List Text → ℕ → Step
past_labels s labels at = finished (finish (record s { labels = labels; offset = at }) (at + 1))

name_loop-labels :
    (bytes : List ℕ) (labels : List Text) (fuel : ℕ) (s : NameLoop) (rest : List ℕ)
    → All IsLabel labels
    → drop s.offset bytes ≡ encode_name labels ++ rest
    → length s.labels + length labels ≤ 33
    → length labels < fuel
    → name_loop bytes fuel s
      ≡ past_labels s (s.labels ++ map (map to_lower) labels) (s.offset + name_length labels)
unfolding name_loop
name_loop-labels bytes labels zero s rest h d n f = absurd (omega arith)
name_loop-labels bytes [] (suc fuel) s rest h d n f = rw (root_round bytes s d) (
    ap₂ (past_labels s) (sym (append-nil s.labels))
      (let p : s.offset ≡ s.offset + 0 = omega arith in p))
name_loop-labels bytes (l ∷ labels) (suc fuel) s rest h d n f =
    let wire = d ∙ ap (λ xs. length l ∷ xs) (append_assoc l (encode_name labels) rest) in
    let few : length s.labels ≤ 32 = omega arith in
    let place : s.offset + (1 + length l) ≡ s.offset + length (length l ∷ l) = omega arith in
    let next = drop-at bytes place ∙ drop-past (length l ∷ l) bytes s.offset wire in
    let more = length-append s.labels (map to_lower l ∷ []) in
    let sum : s.offset + (1 + length l) + name_length labels
        ≡ s.offset + (1 + length l + name_length labels) =
      omega arith in
    rw (label_round bytes s l (encode_name labels ++ rest) h.0 wire few) (
      name_loop-labels bytes labels fuel
        (record s {
          labels = s.labels ++ (map to_lower l ∷ []);
          offset = s.offset + (1 + length l);
        })
        rest h.1 next (omega (arith, more)) (omega arith)
      ∙ ap₂ (past_labels s)
          (append_assoc s.labels (map to_lower l ∷ []) (map (map to_lower) labels)) sum)

map-not_empty :
    (l : Text) (labels : List Text) (at : ℕ) (e : Option ℕ) (j : ℕ)
    → finish
        (record {
          labels = map (map to_lower) (l ∷ labels);
          offset = at;
          jumps = j;
          end_offset = e;
        })
        (at + 1)
      ≡ some (lower_name (l ∷ labels), unwrap_or (or_end e (at + 1)) at)
unfolding finish
map-not_empty l labels at e j = refl

-- A name of 1 to 33 labels is read where it is written, and where a pointer to it stands.
pub read_name-encode :
    (l : Text) (labels : List Text) (bytes : List ℕ) (o : ℕ) (rest : List ℕ)
    → All IsLabel (l ∷ labels)
    → length labels ≤ 32
    → drop o bytes ≡ encode_name (l ∷ labels) ++ rest
    → read_name bytes o ≡ some (lower_name (l ∷ labels), o + name_length (l ∷ labels) + 1)
unfolding read_name
read_name-encode l labels bytes o rest h n d = ap result (
    name_loop-labels bytes (l ∷ labels) name_fuel (name_start o) rest h d (omega arith)
      (omega arith)
    ∙ ap finished (map-not_empty l labels (o + name_length (l ∷ labels)) none 0))

jump_round :
    (bytes : List ℕ) (o p : ℕ) {rest : List ℕ}
    → drop o bytes ≡ 192 ∷ p ∷ rest
    → p < 256
    → p < length bytes
    → name_round bytes (name_start o)
      ≡ going (record { offset = p; labels = []; jumps = 1; end_offset = some (o + 2) })
unfolding name_round at_length jump
jump_round bytes o p d b q =
    let first = get_elem?-drop bytes o d in
    let second = get_elem?-drop bytes (o + 1) (drop-past (192 ∷ []) bytes o d) in
    let inside : leb (length bytes) p ≡ false = ground arith in
    let no_high : 192 % 64 * 256 + p ≡ p = omega arith in
    rw (first, second, jump, no_high, inside) refl

pub read_name-pointer :
    (l : Text) (labels : List Text) (bytes : List ℕ) (o p : ℕ) (rest after : List ℕ)
    → All IsLabel (l ∷ labels)
    → length labels ≤ 32
    → drop p bytes ≡ encode_name (l ∷ labels) ++ rest
    → drop o bytes ≡ 192 ∷ p ∷ after
    → p < 256
    → read_name bytes o ≡ some (lower_name (l ∷ labels), o + 2)
unfolding read_name name_loop
read_name-pointer l labels bytes o p rest after h n d w b =
    let size = drop-length bytes p d in
    ap result (
      ap (name_next (name_loop bytes 43)) (jump_round bytes o p w b (omega arith))
      ∙ (name_loop-labels bytes (l ∷ labels) 43
            (record { offset = p; labels = []; jumps = 1; end_offset = some (o + 2) }) rest h d
            (omega arith) (omega arith)
          ∙ ap finished (map-not_empty l labels (p + name_length (l ∷ labels)) (some (o + 2)) 1)))
