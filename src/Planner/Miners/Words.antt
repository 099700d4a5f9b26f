-- ===== src/Planner/Miners/Words.antt =====
-- crates/ovid-planner/src/miners.rs: what a split line is.
use mathlib.Core.List.{append_assoc, append-nil}
use ovid.Prelude.{
  ℕ, ◌≡◌, refl, ap, Bool, true, false, not, ◌||◌, Option, none, some, List, [], ◌∷◌, ◌++◌, map,
  Text, nat_beq, is_empty, any, all, All, contains, lit, nat_eq, if◌then◌else◌, arith,
}
use ovid.Planner.Miners.{
  is_whitespace, is_quote, complex, has_substitution, push_word, split_words, nonempty_args,
  split_trimmed, shell_split, trim, trim_prompts,
}

abbrev pub IsWord : Text → Type 0
IsWord w = is_empty w ≡ false

push_word-IsWord : (w : Text) (args : List Text) → All IsWord args → All IsWord (push_word w args)
push_word-IsWord [] args h = h
push_word-IsWord (c ∷ w) args h = (refl, h)

-- A predicate that both branches of a test have.
both {ℓ κ} : {A : Type ℓ} (P : A → Type κ) (b : Bool) {x y : A} → P x → P y → P (if b then x else y)
both P true h k = h
both P false h k = k

split_words-IsWord :
    (quote : Option ℕ) (current line : Text) → All IsWord (split_words quote current line)
unfolding split_words
split_words-IsWord none current [] = push_word-IsWord current [] tt
split_words-IsWord (some q) current [] = push_word-IsWord current [] tt
split_words-IsWord none current (c ∷ rest) =
    both (All IsWord) (is_quote c) (split_words-IsWord (some c) current rest) (
      both (All IsWord) (is_whitespace c)
        (push_word-IsWord current _ (split_words-IsWord none [] rest))
        (split_words-IsWord none (current ++ (c ∷ [])) rest))
split_words-IsWord (some q) current (c ∷ rest) =
    both (All IsWord) (nat_beq c q) (split_words-IsWord none current rest)
      (split_words-IsWord (some q) (current ++ (c ∷ [])) rest)

-- An argument vector that can be run: a program, and no empty word.
abbrev pub IsCommand : Option (List Text) → Type 0
IsCommand none = Unit
IsCommand (some args) = (is_empty args ≡ false) × All IsWord args

nonempty_args-IsCommand : (args : List Text) → All IsWord args → IsCommand (nonempty_args args)
nonempty_args-IsCommand [] h = tt
nonempty_args-IsCommand (arg ∷ args) h = (refl, h)

split_trimmed-IsCommand : (line : Text) → IsCommand (split_trimmed line)
unfolding split_trimmed lit
split_trimmed-IsCommand [] = tt
split_trimmed-IsCommand (c ∷ s) = both IsCommand (nat_beq c 35) tt (
    both IsCommand (any (contains complex) (c ∷ s) || has_substitution (c ∷ s))
      (refl, (refl, (refl, (refl, tt))))
      (nonempty_args-IsCommand _ (split_words-IsWord none [] (c ∷ s))))

-- Every line that is mined gives a program with no empty argument, or no command at all.
shell_split-IsCommand : (line : Text) → IsCommand (shell_split line)
unfolding shell_split
shell_split-IsCommand line = split_trimmed-IsCommand (trim (trim_prompts (trim line)))

-- A word between quotes of one kind: not empty, and without that quote.
pub record QuotedWord : Type 0 where
  pub mark : ℕ
  pub body : Text

abbrev pub IsQuotedWord : QuotedWord → Type 0
IsQuotedWord w =
    (is_quote w.mark ≡ true)
    × (is_empty w.body ≡ false)
    × (all (λ c. not (nat_beq c w.mark)) w.body ≡ true)

abbrev pub quoted_words : List QuotedWord → Text
quoted_words [] = []
quoted_words (w ∷ ws) = w.mark ∷ (w.body ++ (w.mark ∷ 32 ∷ quoted_words ws))

split_words-inside :
    (q : ℕ) (body current rest : Text)
    → all (λ c. not (nat_beq c q)) body ≡ true
    → split_words (some q) current (body ++ (q ∷ rest)) ≡ split_words none (current ++ body) rest
unfolding split_words
split_words-inside q [] current rest h =
    let same : nat_beq q q ≡ true = ground arith in rw (same, append-nil current) refl
split_words-inside q (c ∷ body) current rest h =
    let other : nat_beq c q ≡ false = ground arith in
    let next = split_words-inside q body (current ++ (c ∷ [])) rest (ground arith) in
    rw (other, next) (ap (λ w. split_words none w rest) (append_assoc current (c ∷ []) body))

split_words-space :
    (w rest : Text)
    → is_empty w ≡ false
    → split_words none w (32 ∷ rest) ≡ w ∷ split_words none [] rest
unfolding split_words contains
split_words-space [] rest h = absurd (cc)
split_words-space (c ∷ w) rest h = refl

-- Words that stand between quotes of either kind, each with a space after it, are split into
-- exactly their bodies, with the spaces and the other quotes that stand inside.
split_words-quoted :
    (ws : List QuotedWord)
    → All IsQuotedWord ws
    → split_words none [] (quoted_words ws) ≡ map (λ w. w.body) ws
unfolding split_words
split_words-quoted [] h = refl
split_words-quoted (w ∷ ws) h =
    rw (h.0.0, split_words-inside w.mark w.body [] (32 ∷ quoted_words ws) h.0.2)
      (rw (split_words-space w.body (quoted_words ws) h.0.1)
        (ap (λ r. w.body ∷ r) (split_words-quoted ws h.1)))
