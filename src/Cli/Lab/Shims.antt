-- ===== src/Cli/Lab/Shims.antt =====
-- crates/ovid-cli/src/lab.rs: the directory that shadows the search path. Links are made in the order
-- of the directories, each taken to succeed and each directory as an absolute path.
pub mod Links
pub mod Shadowed
use ovid.Prelude.{
  ℕ, ◌≡◌, refl, sym, ap, ◌∙◌, ◌⊎◌, inl, inr, Bool, true, false, not, ◌&&◌, ◌||◌, Option, none, some,
  List, [], ◌∷◌, ◌++◌, Text, lit, is_some, any, contains, find_key, text_eq, Bool-cases, arith,
  if◌then◌else◌,
}
use ovid.Application.Ports.{LabError, Answer, answered, refused, unsupported, preparation}
use ovid.Cli.Lab.{Host}

-- The links, each a name with the directory that it leads to, and whether the hidden one was met.
pub record Shim : Type 0 where
  pub links : List (Text × Text)
  pub target_existed : Bool

abbrev pub no_links : Shim
no_links = record { links = []; target_existed = false }

-- One entry of a directory: the first hit of a name wins.
unfoldable pub link_entry : Text → Text → Shim → Text → Shim
link_entry hidden dir s name =
    if text_eq.beq name hidden
    then record s { target_existed = true }
    else if is_some (find_key name s.links)
    then s
    else record s { links = (name, dir) ∷ s.links }

unfoldable pub link_entries : Text → Text → Shim → List Text → Shim
link_entries hidden dir s [] = s
link_entries hidden dir s (name ∷ names) =
    link_entries hidden dir (link_entry hidden dir s name) names

unfoldable pub link_dirs : Text → Shim → List (Text × List Text) → Shim
link_dirs hidden s [] = s
link_dirs hidden s ((dir, names) ∷ dirs) = link_dirs hidden (link_entries hidden dir s names) dirs

-- The two checks that follow the loop.
unfoldable pub checked_shim : Text → Shim → Answer LabError Shim
checked_shim hidden s =
    if not s.target_existed
    then refused (
        unsupported (
          lit "`"
          ++ (hidden
              ++ (lit "` is not resolved via the host search path; hiding it there "
                  ++ lit "would not vary the dependency"))))
    else if is_some (find_key hidden s.links)
    then refused
        (preparation (lit "shim construction failed: " ++ (hidden ++ lit " still resolvable")))
    else answered s

-- By the directories of the search path.
unfoldable pub shim_in : Text → Option (List (Text × List Text)) → Answer LabError Shim
shim_in hidden none = refused (unsupported (lit "host PATH is not set"))
shim_in hidden (some dirs) = checked_shim hidden (link_dirs hidden no_links dirs)

-- `build_shim_path`
unfoldable pub build_shim : Host → Text → Answer LabError Shim
build_shim h hidden = shim_in hidden h.search_path
