-- ===== src/Observer/Aggregate/Signatures.antt =====
-- crates/ovid-observer/src/aggregate.rs: the signatures of two kinds of events differ.
use mathlib.Core.List.{append_assoc}
use mathlib.Core.Option.{some-injective}
use ovid.Prelude.{
  ℕ, ◌≡◌, refl, sym, ap, ◌∙◌, Bool, true, false, some, [], ◌∷◌, ◌++◌, Text, lit, arith, all,
  nat_beq, starts_with, show, show-injective, show-digits, is_digit, text_eq, if◌then◌else◌,
}
use ovid.Prelude.Order.{text_order}
use ovid.Core.Event.{
  BoundaryEvent, file_opened, shared_object_mapped, process_exec, socket_connect,
  unix_socket_connected, dns_query,
}
use ovid.Observer.Aggregate.{repeat_key, unique_key}

-- The text after the last bar.
after_bar : Text → Text → Text
after_bar last [] = last
after_bar last (c ∷ s) = after_bar (if nat_beq c b'|' then s else last) s

after_bar-digits : (last s : Text) → all is_digit s ≡ true → after_bar last s ≡ last
unfolding after_bar
after_bar-digits last [] h = refl
after_bar-digits last (c ∷ s) h =
    let not_bar : nat_beq c b'|' ≡ false = ground arith in
    rw not_bar (after_bar-digits last s (ground arith))

after_bar-append : (last p s : Text) → all is_digit s ≡ true → after_bar last (p ++ (b'|' ∷ s)) ≡ s
unfolding after_bar
after_bar-append last [] s h = after_bar-digits s s h
after_bar-append last (c ∷ p) s h =
    after_bar-append (if nat_beq c b'|' then p ++ (b'|' ∷ s) else last) p s h

unique_key-after_bar : (l : Text) (n : ℕ) → after_bar [] (unique_key l n) ≡ show n
unfolding unique_key lit
unique_key-after_bar l n =
    ap (after_bar []) (sym (append_assoc (lit "unique|") l (b'|' ∷ show n)))
    ∙ after_bar-append [] (lit "unique|" ++ l) (show n) (show-digits n)

pub unique_key-injective : (l k : Text) (m n : ℕ) → unique_key l m ≡ unique_key k n → m ≡ n
unique_key-injective l k m n h =
    show-injective m n
      (sym (unique_key-after_bar l m) ∙ (ap (after_bar []) h ∙ unique_key-after_bar k n))

abbrev pub is_unique : Text → Bool
is_unique = starts_with (lit "unique|")

pub unique_key-is : (l : Text) (n : ℕ) → is_unique (unique_key l n) ≡ true
unfolding unique_key lit starts_with
unique_key-is l n = refl

plain : (x : Text) {k : Text} → is_unique x ≡ false → some x ≡ some k → is_unique k ≡ false
plain x f h = ground (arith, ap is_unique (some-injective _ _ h))

pub repeat_key-not_unique :
    (e : BoundaryEvent) {k : Text} → repeat_key e ≡ some k → is_unique k ≡ false
unfolding repeat_key lit starts_with
repeat_key-not_unique (file_opened path errno write) h = plain _ refl h
repeat_key-not_unique (shared_object_mapped path) h = plain _ refl h
repeat_key-not_unique (process_exec path argv errno) h = plain _ refl h
repeat_key-not_unique (socket_connect address port name result hint) h = plain _ refl h
repeat_key-not_unique (unix_socket_connected path result) h = plain _ refl h
repeat_key-not_unique (dns_query name answer decision server) h = plain _ refl h
repeat_key-not_unique _ h = absurd (cc)
