-- ===== src/Observer/Strace/Stitching.antt =====
-- crates/ovid-observer/src/strace.rs: a call that strace writes in two parts.
use mathlib.Core.List.{append_assoc}
use ovid.Prelude.{
  ℕ, ◌≡◌, refl, ap, ◌∙◌, Bool, true, false, not, ◌&&◌, none, some, [], ◌∷◌, ◌++◌, Text, lit, arith,
  all, contains, drop, nat_beq, starts_with, ends_with, first_piece, split_once, split_once_at,
  trim_end_matches, trim_end_matches-once, ends_with-append, trim_start_char, find_key, put,
  drop_key, drop_key-absent, nat_eq, text_eq,
}
use ovid.Prelude.Order.{pair_eq}
use ovid.Core.Digest.{strip_prefix-append}
use ovid.Observer.Strace.{Regexes, Parser, Step, ignored}
use ovid.Observer.Strace.Lines.{dispatch, stitch, resume, resumed_tail, unfinished_mark}

-- The name of a call holds no parenthesis, no space and no angle bracket.
abbrev pub is_name : Text → Bool
is_name name = all (λ c. not (nat_beq c b'(') && (not (nat_beq c 32) && not (nat_beq c 62))) name

split_once-absent :
    (d : ℕ) (name rest : Text)
    → all (λ c. not (nat_beq c d)) name ≡ true
    → split_once d (name ++ (d ∷ rest)) ≡ some (name, rest)
unfolding split_once
split_once-absent d [] rest h = let same : nat_beq d d ≡ true = ground arith in rw same refl
split_once-absent d (c ∷ name) rest h =
    let other : nat_beq c d ≡ false = ground arith in
    rw (other, split_once-absent d name rest (ground arith)) refl

-- A pattern without a space and with a bracket begins at no place of a name that a space follows.
starts_with-name :
    (p name t : Text)
    → all (λ c. not (nat_beq c 32)) p ≡ true
    → contains p 62 ≡ true
    → is_name name ≡ true
    → starts_with p (name ++ (32 ∷ t)) ≡ false
unfolding starts_with contains
starts_with-name [] name t a b h = absurd (cc)
starts_with-name (x ∷ p) [] t a b h = ground arith
starts_with-name (x ∷ p) (c ∷ name) t a b h = ground (arith, starts_with-name p name t)

split_once_at-name :
    (name t : Text)
    → is_name name ≡ true
    → split_once_at (lit "resumed>") (name ++ (32 ∷ (lit "resumed>" ++ t)))
      ≡ some (name ++ (32 ∷ []), t)
unfolding split_once_at starts_with lit contains
split_once_at-name [] t h = refl
split_once_at-name (c ∷ name) t h =
    let no = starts_with-name (lit "resumed>") (c ∷ name) (lit "resumed>" ++ t) refl refl h in
    rw (no, split_once_at-name name t (ground arith)) refl

first_piece-absent :
    (d : ℕ) (name rest : Text)
    → all (λ c. not (nat_beq c d)) name ≡ true
    → first_piece d (name ++ (d ∷ rest)) ≡ name
unfolding first_piece
first_piece-absent d name rest h = rw (split_once-absent d name rest h, first_piece) refl

name_all :
    (name : Text)
    → is_name name ≡ true
    → (all (λ c. not (nat_beq c b'(')) name ≡ true) × (all (λ c. not (nat_beq c 32)) name ≡ true)
name_all [] h = (refl, refl)
name_all (c ∷ name) h = let (p, q) = name_all name (ground arith) in (ground arith, ground arith)

unmarked :
    (s : Text)
    → ends_with unfinished_mark s ≡ false
    → trim_end_matches unfinished_mark (s ++ unfinished_mark) ≡ s
unfolding lit
unmarked s h = trim_end_matches-once 60 (drop 1 unfinished_mark) s h

-- The first part of a call.
pub stitch-unfinished :
    (r : Regexes) (p : Parser) (pid : ℕ) (name body : Text)
    → is_name name ≡ true
    → ends_with unfinished_mark (name ++ (b'(' ∷ body)) ≡ false
    → stitch r p pid ((name ++ (b'(' ∷ body)) ++ unfinished_mark)
      ≡ (ignored, record p { unfinished = put (pid, name) (name ++ (b'(' ∷ body)) p.unfinished })
unfolding stitch
stitch-unfinished r p pid name body n e =
    let piece : first_piece b'(' ((name ++ (b'(' ∷ body)) ++ unfinished_mark) ≡ name =
      ap (first_piece b'(') (append_assoc name (b'(' ∷ body) unfinished_mark)
      ∙ first_piece-absent b'(' name (body ++ unfinished_mark) (name_all name n).0 in
    rw
      (
        ends_with-append (name ++ (b'(' ∷ body)) unfinished_mark,
        piece,
        unmarked (name ++ (b'(' ∷ body)) e,
      )
      refl

resumed_tail-name :
    (name tail : Text)
    → is_name name ≡ true
    → resumed_tail (name ++ (32 ∷ (lit "resumed>" ++ tail))) ≡ tail
unfolding resumed_tail
resumed_tail-name name tail n = rw (split_once_at-name name tail n, resumed_tail) refl

resume-found :
    (r : Regexes) (p : Parser) (pid : ℕ) (resumed name head tail : Text)
    → first_piece 32 resumed ≡ name
    → find_key (pid, name) p.unfinished ≡ some head
    → resumed_tail resumed ≡ tail
    → resume r p pid resumed
      ≡ dispatch r
          (record p { unfinished = drop_key (pid, name) p.unfinished })
          pid
          (head ++ trim_start_char 32 tail)
unfolding resume
resume-found r p pid resumed name head tail q f t = rw (q, f, t, resume) (rw q refl)

-- The second, whatever lines of other processes stand between.
pub stitch-resumed :
    (r : Regexes) (p : Parser) (pid : ℕ) (name head tail : Text)
    → is_name name ≡ true
    → find_key (pid, name) p.unfinished ≡ some head
    → let line = lit "<... " ++ (name ++ (32 ∷ (lit "resumed>" ++ tail))) in
      ends_with unfinished_mark line ≡ false
      → stitch r p pid line
        ≡ dispatch r
            (record p { unfinished = drop_key (pid, name) p.unfinished })
            pid
            (head ++ trim_start_char 32 tail)
unfolding stitch
stitch-resumed r p pid name head tail n f e =
    rw (e, strip_prefix-append (lit "<... ") (name ++ (32 ∷ (lit "resumed>" ++ tail))), stitch)
      (resume-found r p pid (name ++ (32 ∷ (lit "resumed>" ++ tail))) name head tail
        (first_piece-absent 32 name (lit "resumed>" ++ tail) (name_all name n).1) f
        (resumed_tail-name name tail n))

-- A call that strace writes in two parts is read as if it were one line: where its name has no
-- parenthesis, space or `>`, only its first part ends in the mark, once, and no call of that name
-- is pending for the process, the first part says nothing, and the second gives the outcome and the
-- state that the whole call gives, spaces before the tail apart.
pub stitch-whole :
    (r : Regexes) (p : Parser) (pid : ℕ) (name body tail : Text)
    → is_name name ≡ true
    → find_key (pid, name) p.unfinished ≡ none
    → ends_with unfinished_mark (name ++ (b'(' ∷ body)) ≡ false
    → let first = stitch r p pid ((name ++ (b'(' ∷ body)) ++ unfinished_mark) in
      let line = lit "<... " ++ (name ++ (32 ∷ (lit "resumed>" ++ tail))) in
      ends_with unfinished_mark line ≡ false
      → (first.0 ≡ ignored)
        × (stitch r first.1 pid line
            ≡ dispatch r p pid ((name ++ (b'(' ∷ body)) ++ trim_start_char 32 tail))
unfolding find_key drop_key
stitch-whole r p pid name body tail n absent e e' =
    let first = stitch-unfinished r p pid name body n e in
    let head = name ++ (b'(' ∷ body) in
    let q : Parser = record p { unfinished = put (pid, name) head p.unfinished } in
    let self = (pair_eq.beq_iff (pid, name) (pid, name)).1 refl in
    let found : find_key (pid, name) q.unfinished ≡ some head = rw self refl in
    let dropped : drop_key (pid, name) q.unfinished ≡ p.unfinished =
      rw self (drop_key-absent (pid, name) p.unfinished absent) in
    (
      ap (λ (s : Step). s.0) first,
      ap (λ (s : Step). stitch r s.1 pid (lit "<... " ++ (name ++ (32 ∷ (lit "resumed>" ++ tail)))))
            first
          ∙ (stitch-resumed r q pid name head tail n found e'
              ∙ ap
                  (λ m.
                    dispatch r (record p { unfinished = m }) pid (head ++ trim_start_char 32 tail))
                  dropped),
    )
