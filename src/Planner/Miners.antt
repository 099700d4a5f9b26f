-- ===== src/Planner/Miners.antt =====
-- crates/ovid-planner/src/miners.rs: splitting a mined line into a command. A text is here the list
-- of its characters' code points, since the code splits by characters.
pub mod Words
use ovid.Prelude.{
  ℕ, Bool, true, false, ◌&&◌, ◌||◌, Option, none, some, List, [], ◌∷◌, ◌++◌, Text, leb, nat_beq,
  if◌then◌else◌, is_empty, any, contains, lit, nat_eq,
}

-- `char::is_whitespace`: Unicode's White_Space.
abbrev pub is_whitespace : ℕ → Bool
is_whitespace c =
    (leb 9 c && leb c 13)
    || (contains (32 ∷ 133 ∷ 160 ∷ 5760 ∷ 8232 ∷ 8233 ∷ 8239 ∷ 8287 ∷ 12288 ∷ []) c
        || (leb 8192 c && leb c 8202))

unfoldable pub trim_start : Text → Text
trim_start [] = []
trim_start (c ∷ s) = let rest = trim_start s in if is_whitespace c then rest else c ∷ s

unfoldable pub trim_end : Text → Text
trim_end [] = []
trim_end (c ∷ s) =
    let rest = trim_end s in if is_whitespace c && is_empty rest then [] else c ∷ rest

abbrev pub trim : Text → Text
trim s = trim_end (trim_start s)

-- `trim_start_matches("$ ")`
unfoldable pub trim_prompts : Text → Text
trim_prompts [] = []
trim_prompts (c ∷ []) = c ∷ []
trim_prompts (c ∷ d ∷ s) =
    let rest = trim_prompts s in if nat_beq c 36 && nat_beq d 32 then rest else c ∷ d ∷ s

-- `|`, `&`, `;`, `<`, `>`, a backquote, `(` and `)`
abbrev pub complex : List ℕ
complex = 124 ∷ 38 ∷ 59 ∷ 60 ∷ 62 ∷ 96 ∷ 40 ∷ 41 ∷ []

-- `line.contains("$(")`
unfoldable pub has_substitution : Text → Bool
has_substitution [] = false
has_substitution (c ∷ []) = false
has_substitution (c ∷ d ∷ s) = (nat_beq c 36 && nat_beq d 40) || has_substitution (d ∷ s)

abbrev pub is_comment : Text → Bool
is_comment [] = false
is_comment (c ∷ s) = nat_beq c 35

abbrev pub is_quote : ℕ → Bool
is_quote c = nat_beq c 34 || nat_beq c 39

-- `args.push(current)` unless it is empty.
abbrev pub push_word : Text → List Text → List Text
push_word [] args = args
push_word (c ∷ s) args = (c ∷ s) ∷ args

-- The loop over the characters and the push after it: the arguments from here on, given the open
-- quote and the current word.
unfoldable pub split_words : Option ℕ → Text → Text → List Text
split_words quote current [] = push_word current []
split_words none current (c ∷ rest) =
    let opened = split_words (some c) current rest in
    let next = push_word current (split_words none [] rest) in
    let grown = split_words none (current ++ (c ∷ [])) rest in
    if is_quote c then opened else if is_whitespace c then next else grown
split_words (some q) current (c ∷ rest) =
    let closed = split_words none current rest in
    let grown = split_words (some q) (current ++ (c ∷ [])) rest in
    if nat_beq c q then closed else grown

abbrev pub nonempty_args : List Text → Option (List Text)
nonempty_args [] = none
nonempty_args (arg ∷ args) = some (arg ∷ args)

-- What the function does with the trimmed line.
unfoldable pub split_trimmed : Text → Option (List Text)
split_trimmed line =
    if is_empty line || is_comment line
    then none
    else if any (contains complex) line || has_substitution line
    then some (lit "sh" ∷ lit "-c" ∷ line ∷ [])
    else nonempty_args (split_words none [] line)

unfoldable pub shell_split : Text → Option (List Text)
shell_split line = split_trimmed (trim (trim_prompts (trim line)))
