-- ===== src/Cli/Lab/Tools.antt =====
-- crates/ovid-cli/src/lab.rs: which executables the events of a trial show to be found or missing. A
-- set is a sorted list; the trial's directory is an absolute path.
pub mod Evidence
use ovid.Prelude.{
  ℕ, suc, Bool, true, false, not, ◌&&◌, ◌||◌, Option, none, some, List, [], ◌∷◌, ◌++◌, Text, lit,
  any, map, length, keep_if, contains, is_empty, starts_with, ends_with, rsplit_once, last_piece,
  split, ltb, nat_eq, text_eq, Floats, if◌then◌else◌,
}
use ovid.Prelude.Order.{upsert, put_in, text_order}
use ovid.Core.Event.{BoundaryEvent, process_exec, file_opened, EventEnvelope}
use ovid.Application.Ports.{ExecutableCandidate}
use ovid.Packs.Schema.{ResolverCandidate}
use ovid.Packs.Registry.{PackRegistry, resolve_executable}

-- The components of a path; separators that are repeated and dots do not count.
components : Text → List Text
components path =
    keep_if (λ piece. not (is_empty piece || text_eq.beq piece (lit "."))) (split b'/' path)

leads : List Text → List Text → Bool
leads [] path = true
leads (c ∷ dir) [] = false
leads (c ∷ dir) (d ∷ path) = text_eq.beq c d && leads dir path

-- `Path::starts_with`, of absolute paths.
unfoldable pub is_inside : Text → Text → Bool
unfolding components leads
is_inside dir path = leads (components dir) (components path)

unfoldable pub launchers : List Text
launchers = lit "sh" ∷ lit "bash" ∷ lit "dash" ∷ lit "env" ∷ []

unfoldable pub wrapper_tools : List Text
wrapper_tools = lit "unshare" ∷ lit "ip" ∷ lit "sleep" ∷ []

unfoldable pub workload_entry : List Text → Text
workload_entry [] = []
workload_entry (command ∷ arguments) = last_piece b'/' command

unfoldable pub excluded : (ovid_bin entry : Text) → Text → Bool
excluded ovid_bin entry name =
    contains launchers name
    || contains wrapper_tools name
    || text_eq.beq name ovid_bin
    || text_eq.beq name entry
    || is_empty name

hit_in_bin : Text → Text → Bool
hit_in_bin basename path = elim (rsplit_once b'/' path) [
  | none ↦ false
  | some (dir, base) ↦
      text_eq.beq base basename && (ends_with (lit "/bin") dir || ends_with (lit "/sbin") dir)
]

unfoldable pub finds : Text → BoundaryEvent → Bool
unfolding hit_in_bin
finds basename (process_exec path argv none) = text_eq.beq (last_piece b'/' path) basename
finds basename (file_opened path none write) = hit_in_bin basename path
finds basename _ = false

unfoldable pub tool_found : List EventEnvelope → Text → Bool
tool_found events basename = any (λ e. finds basename e.event) events

-- The first loop: what was executed outside the workspace.
unfoldable pub note_found : (Text → Bool) → Text → BoundaryEvent → List Text → List Text
note_found skip dir (process_exec path argv none) found =
    if not (starts_with (lit "/") path) || is_inside dir path
    then found
    else if skip (last_piece b'/' path)
    then found
    else put_in (last_piece b'/' path) found
note_found skip dir _ found = found

unfoldable pub all_found : (Text → Bool) → Text → List EventEnvelope → List Text → List Text
all_found skip dir [] found = found
all_found skip dir (e ∷ events) found =
    all_found skip dir events (note_found skip dir e.event found)

-- What is not reported missing by either later loop.
unfoldable pub ruled_out : (Text → Bool) → List EventEnvelope → List Text → Text → Bool
ruled_out skip events found basename =
    skip basename || contains found basename || tool_found events basename

-- The second loop: what could not be executed.
unfoldable pub note_missing : (Text → Bool) → BoundaryEvent → List Text → List Text
note_missing out (process_exec path argv (some errno)) missing =
    if text_eq.beq errno (lit "ENOENT") && not (out (last_piece b'/' path))
    then put_in (last_piece b'/' path) missing
    else missing
note_missing out _ missing = missing

unfoldable pub all_missing : (Text → Bool) → List EventEnvelope → List Text → List Text
all_missing out [] missing = missing
all_missing out (e ∷ events) missing = all_missing out events (note_missing out e.event missing)

miss_at : Option (Text × Text) → List (Text × List Text) → List (Text × List Text)
miss_at none scan = scan
miss_at (some (dir, base)) scan =
    if not (is_empty base) && not (contains base b'.')
    then upsert base (put_in dir) (dir ∷ []) scan
    else scan

-- The third loop: the directories in which a name without a dot was looked for in vain.
unfoldable pub note_scan : BoundaryEvent → List (Text × List Text) → List (Text × List Text)
unfolding miss_at
note_scan (file_opened path (some errno) write) scan =
    if text_eq.beq errno (lit "ENOENT") then miss_at (rsplit_once b'/' path) scan else scan
note_scan _ scan = scan

unfoldable pub all_scans : List EventEnvelope → List (Text × List Text) → List (Text × List Text)
all_scans [] scan = scan
all_scans (e ∷ events) scan = all_scans events (note_scan e.event scan)

-- The fourth loop: two directories and a resolver that knows the name.
unfoldable pub note_scanned :
    (out knows : Text → Bool) → List (Text × List Text) → List Text → List Text
note_scanned out knows [] missing = missing
note_scanned out knows ((basename, dirs) ∷ scan) missing = note_scanned out knows scan (
    if ltb (length dirs) 2 || out basename || contains missing basename || not (knows basename)
    then missing
    else put_in basename missing)

first_hint : List ResolverCandidate → Option Text
first_hint [] = none
first_hint (c ∷ cs) = some (c.package_name ++ (lit " via " ++ c.provider))

unfoldable pub found_candidate : Text → ExecutableCandidate
found_candidate name = record { name = name; found = true; resolver_hint = none }

unfoldable pub missing_candidate : Floats → PackRegistry → Text → ExecutableCandidate
unfolding first_hint
missing_candidate fl registry name = record {
  name = name;
  found = false;
  resolver_hint = first_hint (resolve_executable fl registry name);
}

-- The names found, and then those missing.
unfoldable pub missing_names : (skip knows : Text → Bool) → Text → List EventEnvelope → List Text
missing_names skip knows dir events =
    let out = ruled_out skip events (all_found skip dir events []) in
    note_scanned out knows (all_scans events []) (all_missing out events [])

unfoldable pub executable_candidates :
    Floats
    → PackRegistry
    → (ovid_bin : Text) → (argv : List Text) → (dir : Text) → List EventEnvelope
    → List ExecutableCandidate
executable_candidates fl registry ovid_bin argv dir events =
    let skip = excluded ovid_bin (workload_entry argv) in
    let knows = λ (name : Text). not (is_empty (resolve_executable fl registry name)) in
    map found_candidate (all_found skip dir events [])
    ++ map (missing_candidate fl registry) (missing_names skip knows dir events)
