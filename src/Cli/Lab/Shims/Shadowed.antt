-- ===== src/Cli/Lab/Shims/Shadowed.antt =====
-- crates/ovid-cli/src/lab.rs: the shadow directory is the search path less the hidden executable.
use ovid.Prelude.{
  ◌≡◌, refl, sym, ap, subst, ◌∙◌, inl, inr, Bool, true, false, not, ◌||◌, Option, none, some, List,
  [], ◌∷◌, Text, is_some, contains, find_key, text_eq, Bool-cases, arith, if◌then◌else◌,
}
use ovid.Application.Ports.{LabError, unsupported, preparation, Answer, answered, refused}
use ovid.Cli.Lab.{Host}
use ovid.Cli.Lab.Shims.{
  Shim, no_links, link_entry, link_entries, link_dirs, checked_shim, shim_in, build_shim,
}
use ovid.Cli.Lab.Shims.Links.{resolve, visible, dirs-found}

entry-existed :
    (hidden dir : Text) (s : Shim) (n : Text)
    → (link_entry hidden dir s n).target_existed ≡ (s.target_existed || text_eq.beq n hidden)
unfolding link_entry
entry-existed hidden dir s n = ground (arith)

entries-existed :
    (hidden dir : Text) (s : Shim) (names : List Text)
    → (link_entries hidden dir s names).target_existed ≡ (s.target_existed || contains names hidden)
unfolding link_entries contains
entries-existed hidden dir s [] = ground (arith)
entries-existed hidden dir s (n ∷ names) = ground (
  arith,
  entries-existed hidden dir (link_entry hidden dir s n) names,
  entry-existed hidden dir s n,
)

dirs-existed :
    (hidden : Text) (s : Shim) (dirs : List (Text × List Text))
    → (link_dirs hidden s dirs).target_existed ≡ (s.target_existed || is_some (resolve hidden dirs))
unfolding link_dirs
dirs-existed hidden s [] = ground (arith)
dirs-existed hidden s ((dir, names) ∷ dirs) =
    dirs-existed hidden (link_entries hidden dir s names) dirs
    ∙ ap (λ b. b || is_some (resolve hidden dirs)) (entries-existed hidden dir s names)
    ∙ by_tests s.target_existed (contains names hidden) (resolve hidden dirs)
  where
    by_tests :
        (a c : Bool) (o : Option Text)
        → ((a || c) || is_some o) ≡ (a || is_some (if c then some dir else o))
    by_tests true c o = refl
    by_tests false true o = refl
    by_tests false false o = refl

-- The directories of the search path, none where it is not set.
abbrev pub directories : Option (List (Text × List Text)) → List (Text × List Text)
directories none = []
directories (some dirs) = dirs

abbrev pub is_answered : {A : Type 0} → Answer LabError A → Bool
is_answered (answered a) = true
is_answered (refused e) = false

visible-hidden :
    (hidden : Text) (dirs : List (Text × List Text)) → visible hidden hidden dirs ≡ none
visible-hidden hidden dirs = rw ((text_eq.beq_iff hidden hidden).1 refl) refl

hidden-unlinked :
    (hidden : Text) (dirs : List (Text × List Text))
    → find_key hidden (link_dirs hidden no_links dirs).links ≡ none
unfolding find_key
hidden-unlinked hidden dirs = dirs-found hidden no_links dirs hidden ∙ visible-hidden hidden dirs

-- The second check never fails, so the first decides.
checked-by :
    (hidden : Text) (s : Shim)
    → find_key hidden s.links ≡ none
    → is_answered (checked_shim hidden s) ≡ s.target_existed
unfolding checked_shim
checked-by hidden s q =
    rw q (elim (Bool-cases s.target_existed) [ inl t ↦ rw t refl | inr f ↦ rw f refl ])

-- A shadow directory is built exactly where some directory of the search path has the executable
-- that is to be hidden.
pub build_shim-answers :
    (h : Host) (hidden : Text)
    → is_answered (build_shim h hidden) ≡ is_some (resolve hidden (directories h.search_path))
unfolding build_shim shim_in find_key
build_shim-answers h hidden = by_path h.search_path
  where
    by_path :
        (o : Option (List (Text × List Text)))
        → is_answered (shim_in hidden o) ≡ is_some (resolve hidden (directories o))
    by_path none = refl
    by_path (some dirs) =
        checked-by hidden (link_dirs hidden no_links dirs) (hidden-unlinked hidden dirs)
        ∙ dirs-existed hidden no_links dirs

abbrev Answered : (Shim → Type 0) → Answer LabError Shim → Type 0
Answered P (answered s) = P s
Answered P (refused e) = Unit

checked-Answered :
    (P : Shim → Type 0) (hidden : Text) (s : Shim) → P s → Answered P (checked_shim hidden s)
unfolding checked_shim
checked-Answered P hidden s p =
    by_tests (unsupported _) (preparation _) s.target_existed (is_some (find_key hidden s.links))
  where
    by_tests :
        (x y : LabError) (a b : Bool)
        → Answered P (if not a then refused x else if b then refused y else answered s)
    by_tests x y false b = tt
    by_tests x y true true = tt
    by_tests x y true false = p

-- What is built is what was linked.
pub build_shim-same :
    (h : Host) (hidden : Text) {dirs : List (Text × List Text)} {s : Shim}
    → h.search_path ≡ some dirs
    → build_shim h hidden ≡ answered s
    → s ≡ link_dirs hidden no_links dirs
unfolding build_shim shim_in
build_shim-same h hidden {dirs = dirs} p q =
    let linked = link_dirs hidden no_links dirs in
    subst (Answered (λ t. t ≡ linked)) (sym (ap (shim_in hidden) p) ∙ q)
      (checked-Answered (λ t. t ≡ linked) hidden linked refl)

-- In a shadow directory that was built every name leads where the search path leads, except that
-- the hidden one leads nowhere.
pub build_shim-shadows :
    (h : Host) (hidden name : Text) {s : Shim}
    → build_shim h hidden ≡ answered s
    → find_key name s.links ≡ visible hidden name (directories h.search_path)
unfolding build_shim shim_in find_key
build_shim-shadows h hidden name {s = s} q =
    subst (Answered (λ t. find_key name t.links ≡ visible hidden name (directories h.search_path)))
      q (by_path h.search_path)
  where
    by_path :
        (o : Option (List (Text × List Text)))
        → Answered
            (λ t. find_key name t.links ≡ visible hidden name (directories o))
            (shim_in hidden o)
    by_path none = tt
    by_path (some dirs) =
        checked-Answered _ hidden (link_dirs hidden no_links dirs)
          (dirs-found hidden no_links dirs name)
