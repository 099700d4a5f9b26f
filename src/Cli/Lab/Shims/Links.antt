-- ===== src/Cli/Lab/Shims/Links.antt =====
-- crates/ovid-cli/src/lab.rs: the shadow directory and what each name leads to in it.
use ovid.Prelude.{
  ◌≡◌, refl, sym, ap, ◌∙◌, inl, inr, Bool, true, false, ◌||◌, Option, none, some, List, [], ◌∷◌,
  Text, is_some, contains, find_key, text_eq, beq-false, false≢true, Bool-cases, arith,
  if◌then◌else◌,
}
use ovid.Application.Ports.{or_else}
use ovid.Cli.Lab.Shims.{Shim, link_entry, link_entries, link_dirs}

-- What a name leads to: the first directory that has it.
abbrev pub resolve : Text → List (Text × List Text) → Option Text
resolve name [] = none
resolve name ((dir, names) ∷ dirs) =
    let rest = resolve name dirs in if contains names name then some dir else rest

shown : Text → Text → Text → List Text → Option Text
shown hidden dir name names =
    if text_eq.beq hidden name then none else if contains names name then some dir else none

or_else_assoc : (a b c : Option Text) → or_else (or_else a b) c ≡ or_else a (or_else b c)
or_else_assoc none b c = refl
or_else_assoc (some x) b c = refl

or_else-none : (a : Option Text) → or_else a none ≡ a
or_else-none none = refl
or_else-none (some x) = refl

or_else-some : (x : Text) (a : Option Text) → is_some a ≡ true → or_else a (some x) ≡ a
or_else-some x none h = absurd (cc)
or_else-some x (some y) h = refl

or_else-empty : (a b : Option Text) → is_some a ≡ false → or_else a b ≡ b
or_else-empty none b h = refl
or_else-empty (some y) b h = absurd (cc)

shown-hidden :
    (hidden dir name n : Text) → text_eq.beq n hidden ≡ true → shown hidden dir name (n ∷ []) ≡ none
unfolding shown contains
shown-hidden hidden dir name n t = elim (Bool-cases (text_eq.beq hidden name)) [
  | inl h ↦ rw h refl
  | inr h ↦ rw h (rw (ap (λ m. text_eq.beq m name) ((text_eq.beq_iff n hidden).0 t) ∙ h) refl)
]

shown-other :
    (hidden dir name n : Text)
    → text_eq.beq n hidden ≡ false
    → shown hidden dir name (n ∷ []) ≡ (if text_eq.beq n name then some dir else none)
unfolding shown contains
shown-other hidden dir name n f = elim (Bool-cases (text_eq.beq n name)) [
  | inl h ↦ rw h (
      rw
        (beq-false text_eq hidden name (λ p.
          false≢true (sym f ∙ (text_eq.beq_iff n hidden).1 ((text_eq.beq_iff n name).0 h ∙ sym p))))
        refl)
  | inr h ↦ ground (arith, h)
]

-- A link is made unless the name has one.
link-found :
    (dir n name : Text) (s : Shim) (has : Bool)
    → is_some (find_key n s.links) ≡ has
    → find_key name (if has then s else record s { links = (n, dir) ∷ s.links }).links
      ≡ or_else (find_key name s.links) (if text_eq.beq n name then some dir else none)
unfolding find_key
link-found dir n name s has p = elim (Bool-cases (text_eq.beq n name)) [
  | inl b ↦
      rw b (
        same b has
          (sym (ap (λ m. is_some (find_key m s.links)) ((text_eq.beq_iff n name).0 b)) ∙ p))
  | inr b ↦ rw b (rw (or_else-none (find_key name s.links)) (other b has))
]
  where
    same :
        text_eq.beq n name ≡ true
        → (b : Bool) → is_some (find_key name s.links) ≡ b
        → find_key name (if b then s else record s { links = (n, dir) ∷ s.links }).links
          ≡ or_else (find_key name s.links) (some dir)
    same e true t = sym (or_else-some dir (find_key name s.links) t)
    same e false f = rw e (sym (or_else-empty (find_key name s.links) (some dir) f))

    other :
        text_eq.beq n name ≡ false
        → (b : Bool)
        → find_key name (if b then s else record s { links = (n, dir) ∷ s.links }).links
          ≡ find_key name s.links
    other e true = refl
    other e false = rw e refl

entry-found :
    (hidden dir : Text) (s : Shim) (n name : Text)
    → find_key name (link_entry hidden dir s n).links
      ≡ or_else (find_key name s.links) (shown hidden dir name (n ∷ []))
unfolding link_entry
entry-found hidden dir s n name = elim (Bool-cases (text_eq.beq n hidden)) [
  | inl t ↦
      rw t (rw (shown-hidden hidden dir name n t) (sym (or_else-none (find_key name s.links))))
  | inr f ↦ rw f (
      rw (shown-other hidden dir name n f)
        (link-found dir n name s (is_some (find_key n s.links)) refl))
]

shown-append :
    (hidden dir name n : Text) (names : List Text)
    → or_else (shown hidden dir name (n ∷ [])) (shown hidden dir name names)
      ≡ shown hidden dir name (n ∷ names)
unfolding shown contains
shown-append hidden dir name n names =
    by_tests (text_eq.beq hidden name) (text_eq.beq n name) (contains names name)
  where
    by_tests :
        (a b c : Bool)
        → or_else
            (if a then none else if b || false then some dir else none)
            (if a then none else if c then some dir else none)
          ≡ (if a then none else if b || c then some dir else none)
    by_tests true b c = refl
    by_tests false true c = refl
    by_tests false false c = refl

if-none : (b : Bool) → Path (Option Text) (if b then none else none) none
if-none true = refl
if-none false = refl

shown-nil : (hidden dir name : Text) → shown hidden dir name [] ≡ none
unfolding shown contains
shown-nil hidden dir name = if-none (text_eq.beq hidden name)

entries-found :
    (hidden dir : Text) (s : Shim) (names : List Text) (name : Text)
    → find_key name (link_entries hidden dir s names).links
      ≡ or_else (find_key name s.links) (shown hidden dir name names)
unfolding link_entries
entries-found hidden dir s [] name = sym (
    ap (or_else (find_key name s.links)) (shown-nil hidden dir name)
    ∙ or_else-none (find_key name s.links))
entries-found hidden dir s (n ∷ names) name =
    entries-found hidden dir (link_entry hidden dir s n) names name
    ∙ ap (λ o. or_else o (shown hidden dir name names)) (entry-found hidden dir s n name)
    ∙ or_else_assoc (find_key name s.links) (shown hidden dir name (n ∷ []))
        (shown hidden dir name names)
    ∙ ap (or_else (find_key name s.links)) (shown-append hidden dir name n names)

-- What the directories show of a name that is not hidden.
abbrev pub visible : Text → Text → List (Text × List Text) → Option Text
visible hidden name dirs = if text_eq.beq hidden name then none else resolve name dirs

visible-cons :
    (hidden dir name : Text) (names : List Text) (dirs : List (Text × List Text))
    → or_else (shown hidden dir name names) (visible hidden name dirs)
      ≡ visible hidden name ((dir, names) ∷ dirs)
unfolding shown
visible-cons hidden dir name names dirs =
    by_tests (text_eq.beq hidden name) (contains names name) (resolve name dirs)
  where
    by_tests :
        (a c : Bool) (o : Option Text)
        → or_else (if a then none else if c then some dir else none) (if a then none else o)
          ≡ (if a then none else if c then some dir else o)
    by_tests true c o = refl
    by_tests false true o = refl
    by_tests false false o = refl

pub dirs-found :
    (hidden : Text) (s : Shim) (dirs : List (Text × List Text)) (name : Text)
    → find_key name (link_dirs hidden s dirs).links
      ≡ or_else (find_key name s.links) (visible hidden name dirs)
unfolding link_dirs
dirs-found hidden s [] name = sym (
    ap (or_else (find_key name s.links)) (if-none (text_eq.beq hidden name))
    ∙ or_else-none (find_key name s.links))
dirs-found hidden s ((dir, names) ∷ dirs) name =
    dirs-found hidden (link_entries hidden dir s names) dirs name
    ∙ ap (λ o. or_else o (visible hidden name dirs)) (entries-found hidden dir s names name)
    ∙ or_else_assoc (find_key name s.links) (shown hidden dir name names) (visible hidden name dirs)
    ∙ ap (or_else (find_key name s.links)) (visible-cons hidden dir name names dirs)
