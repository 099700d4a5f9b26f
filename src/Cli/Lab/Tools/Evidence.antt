-- ===== src/Cli/Lab/Tools/Evidence.antt =====
-- crates/ovid-cli/src/lab.rs: what a reported executable rests on.
use ovid.Prelude.{
  ◌≡◌, refl, sym, ap, subst, ◌∙◌, ◌⊎◌, inl, inr, Bool, true, false, not, ◌&&◌, ◌||◌, none, some,
  List, [], ◌∷◌, Text, lit, map, length, In, In-append, In-map_back, contains, starts_with,
  last_piece, ltb, text_eq, Floats, Bool-cases, arith, if◌then◌else◌,
}
use ovid.Prelude.Order.{put_in, In-put_in, text_order}
use ovid.Core.Event.{BoundaryEvent, process_exec, file_opened, EventEnvelope}
use ovid.Application.Ports.{ExecutableCandidate}
use ovid.Packs.Registry.{PackRegistry}
use ovid.Cli.Lab.Tools.{
  is_inside, workload_entry, excluded, finds, tool_found, note_found, all_found, ruled_out,
  note_missing, all_missing, all_scans, note_scanned, found_candidate, missing_candidate,
  missing_names, executable_candidates,
}

-- A name that an event finds, and that is not skipped.
Backed : (Text → Bool) → List EventEnvelope → Text → Type 0
Backed skip events a = (tool_found events a ≡ true) × (skip a ≡ false)

note_found-In :
    (skip : Text → Bool) (dir : Text) (event : BoundaryEvent) (found : List Text) {a : Text}
    → In a (note_found skip dir event found)
    → In a found ⊎ ((finds a event ≡ true) × (skip a ≡ false))
unfolding note_found finds
note_found-In skip dir (process_exec path argv none) found m =
    by_tests (not (starts_with (lit "/") path) || is_inside dir path)
      (Bool-cases (skip (last_piece b'/' path))) m
  where
    by_tests :
        {a : Text} (out : Bool)
        → (skip (last_piece b'/' path) ≡ true) ⊎ (skip (last_piece b'/' path) ≡ false)
        → In a (
            if out
            then found
            else if skip (last_piece b'/' path)
            then found
            else put_in (last_piece b'/' path) found)
        → In a found ⊎ ((text_eq.beq (last_piece b'/' path) a ≡ true) × (skip a ≡ false))
    by_tests true s n = inl n
    by_tests false (inl t) n = inl (rw t at n)
    by_tests {a = a} false (inr f) n = elim (In-put_in (last_piece b'/' path) found (rw f at n)) [
      | inl p ↦ inr ((text_eq.beq_iff (last_piece b'/' path) a).1 (sym p), ap skip p ∙ f)
      | inr k ↦ inl k
    ]
note_found-In skip dir (process_exec path argv (some errno)) found m = inl m
note_found-In skip dir (file_opened path errno write) found m = inl m
note_found-In skip dir event found m = inl m

all_found-In :
    (skip : Text → Bool) (dir : Text) (events : List EventEnvelope) (found : List Text) {a : Text}
    → In a (all_found skip dir events found)
    → In a found ⊎ Backed skip events a
unfolding all_found Backed tool_found
all_found-In skip dir [] found m = inl m
all_found-In skip dir (e ∷ events) found {a = a} m =
    elim (all_found-In skip dir events (note_found skip dir e.event found) m) [
      | inr (t, s) ↦ inr (ground arith, s)
      | inl k ↦ elim (note_found-In skip dir e.event found k) [
        | inl n ↦ inl n
        | inr (t, s) ↦ inr (rw t refl, s)
      ]
    ]

note_missing-In :
    (out : Text → Bool) (event : BoundaryEvent) (missing : List Text) {a : Text}
    → In a (note_missing out event missing)
    → In a missing ⊎ (out a ≡ false)
unfolding note_missing
note_missing-In out (process_exec path argv (some errno)) missing m =
    by_tests (text_eq.beq errno (lit "ENOENT")) (Bool-cases (out (last_piece b'/' path))) m
  where
    by_tests :
        {a : Text} (enoent : Bool)
        → (out (last_piece b'/' path) ≡ true) ⊎ (out (last_piece b'/' path) ≡ false)
        → In a (
            if enoent && not (out (last_piece b'/' path))
            then put_in (last_piece b'/' path) missing
            else missing)
        → In a missing ⊎ (out a ≡ false)
    by_tests false s n = inl n
    by_tests true (inl t) n = inl (rw t at n)
    by_tests true (inr f) n = elim (In-put_in (last_piece b'/' path) missing (rw f at n)) [
      | inl p ↦ inr (ap out p ∙ f)
      | inr k ↦ inl k
    ]
note_missing-In out event missing m = inl m

all_missing-In :
    (out : Text → Bool) (events : List EventEnvelope) (missing : List Text) {a : Text}
    → In a (all_missing out events missing)
    → In a missing ⊎ (out a ≡ false)
unfolding all_missing
all_missing-In out [] missing m = inl m
all_missing-In out (e ∷ events) missing m =
    elim (all_missing-In out events (note_missing out e.event missing) m) [
      | inr f ↦ inr f
      | inl k ↦ note_missing-In out e.event missing k
    ]

note_scanned-In :
    (out knows : Text → Bool) (scan : List (Text × List Text)) (missing : List Text) {a : Text}
    → In a (note_scanned out knows scan missing)
    → In a missing ⊎ (out a ≡ false)
unfolding note_scanned
note_scanned-In out knows [] missing m = inl m
note_scanned-In out knows ((basename, dirs) ∷ scan) missing {a = a} m =
    elim (note_scanned-In out knows scan _ m) [
      | inr f ↦ inr f
      | inl k ↦
          by_tests (ltb (length dirs) 2) (contains missing basename) (not (knows basename))
            (Bool-cases (out basename)) k
    ]
  where
    by_tests :
        (few known unknown : Bool)
        → (out basename ≡ true) ⊎ (out basename ≡ false)
        → In a
            (if few || out basename || known || unknown then missing else put_in basename missing)
        → In a missing ⊎ (out a ≡ false)
    by_tests true k u s n = inl n
    by_tests false k u (inl t) n = inl (rw t at n)
    by_tests false true u (inr f) n = inl (rw f at n)
    by_tests false false true (inr f) n = inl (rw f at n)
    by_tests false false false (inr f) n = elim (In-put_in basename missing (rw f at n)) [
      | inl p ↦ inr (ap out p ∙ f)
      | inr k ↦ inl k
    ]

ruled_in :
    (skip : Text → Bool) (events : List EventEnvelope) (found : List Text) (a : Text)
    → ruled_out skip events found a ≡ false
    → (tool_found events a ≡ false) × (skip a ≡ false)
unfolding ruled_out
ruled_in skip events found a f = (ground arith, ground arith)

missing_names-In :
    (skip knows : Text → Bool) (dir : Text) (events : List EventEnvelope) {a : Text}
    → In a (missing_names skip knows dir events)
    → (tool_found events a ≡ false) × (skip a ≡ false)
unfolding missing_names
missing_names-In skip knows dir events {a = a} m =
    elim (note_scanned-In (ruled_out skip events found) knows (all_scans events []) _ m) [
      | inr f ↦ ruled_in skip events found a f
      | inl k ↦ elim (all_missing-In (ruled_out skip events found) events [] k) [
        | inr f ↦ ruled_in skip events found a f
        | inl n ↦ elim n [ ]
      ]
    ]
  where
    found : List Text
    found = all_found skip dir events []

all_found-Backed :
    (skip : Text → Bool) (dir : Text) (events : List EventEnvelope) {a : Text}
    → In a (all_found skip dir events [])
    → Backed skip events a
all_found-Backed skip dir events m = elim (all_found-In skip dir events [] m) [
  | inl z ↦ elim z [ ]
  | inr b ↦ b
]

-- What is reported of a name.
Rests : (Text → Bool) → List EventEnvelope → ExecutableCandidate → Type 0
Rests skip events c = (c.found ≡ tool_found events c.name) × (skip c.name ≡ false)

found-Rests :
    (skip : Text → Bool) (events : List EventEnvelope) (a : Text) {c : ExecutableCandidate}
    → Backed skip events a
    → c ≡ found_candidate a
    → Rests skip events c
unfolding Backed Rests found_candidate
found-Rests skip events a b p = subst (Rests skip events) (sym p) (sym b.0, b.1)

missing-Rests :
    (fl : Floats) (registry : PackRegistry) (skip : Text → Bool) (events : List EventEnvelope)
    (a : Text) {c : ExecutableCandidate}
    → (tool_found events a ≡ false) × (skip a ≡ false)
    → c ≡ missing_candidate fl registry a
    → Rests skip events c
unfolding Rests missing_candidate
missing-Rests fl registry skip events a b p = subst (Rests skip events) (sym p) (sym b.0, b.1)

-- An executable is reported found or missing as an event of the trial found it or none did, and
-- neither launchers nor the workload's own command are reported.
pub executable_candidates-evidence :
    (fl : Floats) (registry : PackRegistry) (ovid_bin : Text) (argv : List Text) (dir : Text)
    (events : List EventEnvelope) {c : ExecutableCandidate}
    → In c (executable_candidates fl registry ovid_bin argv dir events)
    → (c.found ≡ tool_found events c.name)
      × (excluded ovid_bin (workload_entry argv) c.name ≡ false)
unfolding executable_candidates Rests
executable_candidates-evidence fl registry ovid_bin argv dir events m =
    let skip = excluded ovid_bin (workload_entry argv) in
    let found = all_found skip dir events [] in
    In-append (map found_candidate found) m
      (λ k.
        let (name, n, p) = In-map_back found_candidate found k in
        found-Rests skip events name (all_found-Backed skip dir events n) p)
      (λ k.
        let (name, n, p) = In-map_back (missing_candidate fl registry) _ k in
        missing-Rests fl registry skip events name (missing_names-In skip _ dir events n) p)
