-- ===== src/Observer/Dns/Packets/Answers.antt =====
-- crates/ovid-observer/src/dns.rs: reading the answers that a resolver client receives.
use ovid.Prelude.{
  ℕ, ◌+◌, ◌*◌, ◌≤◌, ◌≡◌, refl, ap, ◌∙◌, some, List, [], ◌∷◌, ◌++◌, Text, length, drop, map, arith,
  All,
}
use ovid.Observer.Dns.Names.{get_range}
use ovid.Observer.Dns.Names.Encoded.{
  IsLabel, encode_name, drop-past, drop-at, get_range-drop, read_u16-drop, read_name-pointer,
}
use ovid.Observer.Dns.Packets.{IpAddr, v4, v6, address, read_answer, read_answers}

-- An answer: the bytes of its time to live, and its address.
pub record Answer : Type 0 where
  pub t3 : ℕ
  pub t2 : ℕ
  pub t1 : ℕ
  pub t0 : ℕ
  pub address : IpAddr

-- The type and the data of an address record: A or AAAA.
abbrev pub type_of : IpAddr → ℕ
type_of (v4 bytes) = 1
type_of (v6 bytes) = 28

abbrev pub data_of : IpAddr → List ℕ
data_of (v4 bytes) = bytes
data_of (v6 bytes) = bytes

-- Four bytes, or sixteen.
abbrev pub IsAddress : IpAddr → Type 0
IsAddress (v4 bytes) = length bytes ≡ 4
IsAddress (v6 bytes) = length bytes ≡ 16

-- A pointer to the question's name, type, class, time to live, and the data after its length.
abbrev pub encode_answer : Answer → List ℕ
encode_answer a =
    192
    ∷ 12
    ∷ 0
    ∷ type_of a.address
    ∷ 0
    ∷ 1
    ∷ a.t3
    ∷ a.t2
    ∷ a.t1
    ∷ a.t0
    ∷ 0
    ∷ length (data_of a.address)
    ∷ data_of a.address

abbrev pub encode_answers : List Answer → List ℕ
encode_answers [] = []
encode_answers (a ∷ rs) = encode_answer a ++ encode_answers rs

address_lem :
    (a : IpAddr)
    → IsAddress a
    → address (0 * 256 + type_of a) (0 * 256 + length (data_of a)) (data_of a) ≡ a ∷ []
unfolding address
address_lem (v4 bytes) h = ground (arith, h)
address_lem (v6 bytes) h = ground (arith, h)

-- The slice of an address.
data_lem :
    (a : IpAddr) (after bytes : List ℕ) (o : ℕ)
    → IsAddress a
    → drop o bytes ≡ data_of a ++ after
    → get_range bytes o (0 * 256 + length (data_of a)) ≡ some (data_of a)
data_lem (v4 []) after bytes o h d = absurd (omega (arith, h))
data_lem (v6 []) after bytes o h d = absurd (omega (arith, h))
data_lem (v4 (x ∷ xs)) after bytes o h d =
    let size : 0 * 256 + length (x ∷ xs) ≡ length (x ∷ xs) = omega arith in
    ap (get_range bytes o) size ∙ get_range-drop x xs after bytes o d
data_lem (v6 (x ∷ xs)) after bytes o h d =
    let size : 0 * 256 + length (x ∷ xs) ≡ length (x ∷ xs) = omega arith in
    ap (get_range bytes o) size ∙ get_range-drop x xs after bytes o d

answer_lem :
    (l : Text) (labels : List Text) (bytes : List ℕ) (o : ℕ) (a : Answer) (rest after : List ℕ)
    → All IsLabel (l ∷ labels)
    → length labels ≤ 32
    → IsAddress a.address
    → drop 12 bytes ≡ encode_name (l ∷ labels) ++ rest
    → drop o bytes ≡ encode_answer a ++ after
    → read_answer bytes o ≡ some (a.address ∷ [], o + length (encode_answer a))
unfolding read_answer
answer_lem l labels bytes o a rest after h n s d w =
    let before : List ℕ =
      192 ∷ 12 ∷ 0 ∷ type_of a.address ∷ 0 ∷ 1 ∷ a.t3 ∷ a.t2 ∷ a.t1 ∷ a.t0 ∷ [] in
    let name = read_name-pointer l labels bytes o 12 rest _ h n d w (omega arith) in
    let rtype = read_u16-drop bytes (o + 2) (drop-past (192 ∷ 12 ∷ []) bytes o w) in
    let ten : o + 2 + 8 ≡ o + 10 = omega arith in
    let twelve : o + 2 + 10 ≡ o + 12 = omega arith in
    let size : o + 2 + 10 + (0 * 256 + length (data_of a.address)) ≡ o + length (encode_answer a) =
      omega arith in
    let rdlen = read_u16-drop bytes (o + 2 + 8) (drop-at bytes ten ∙ drop-past before bytes o w) in
    let rdata = data_lem a.address after bytes (o + 2 + 10) s (
      drop-at bytes twelve
      ∙ drop-past (before ++ (0 ∷ length (data_of a.address) ∷ [])) bytes o w) in
    rw (name, rtype, rdlen, rdata, address_lem a.address s, size) refl

pub answers_lem :
    (l : Text) (labels : List Text) (bytes : List ℕ) (rs : List Answer) (o : ℕ) (rest : List ℕ)
    → All IsLabel (l ∷ labels)
    → length labels ≤ 32
    → All (λ (a : Answer). IsAddress a.address) rs
    → drop 12 bytes ≡ encode_name (l ∷ labels) ++ rest
    → drop o bytes ≡ encode_answers rs
    → read_answers (length rs) bytes o ≡ map (λ (a : Answer). a.address) rs
unfolding read_answers
answers_lem l labels bytes [] o rest h n s d w = refl
answers_lem l labels bytes (a ∷ rs) o rest h n s d w =
    rw (answer_lem l labels bytes o a rest (encode_answers rs) h n s.0 d w) (
      ap (λ xs. a.address ∷ xs)
        (answers_lem l labels bytes rs (o + length (encode_answer a)) rest h n s.1 d
          (drop-past (encode_answer a) bytes o w)))
