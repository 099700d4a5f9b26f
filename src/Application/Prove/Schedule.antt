-- ===== src/Application/Prove/Schedule.antt =====
-- crates/ovid-application/src/prove.rs: the order in which executables are hidden, and that of the
-- report's egress intents.
use ovid.Prelude.{
  ℕ, Bool, true, false, ◌&&◌, List, [], ◌∷◌, ◌++◌, Text, lit, text_eq, nat_eq, contains, ltb, leb,
  nat_beq, if◌then◌else◌,
}
use ovid.Prelude.Order.{text_order}
use ovid.Application.Ports.{EgressIntent, ExecutableCandidate, TrialObservations}

abbrev ubiquitous_utilities : List Text
ubiquitous_utilities =
    lit "awk"
    ∷ lit "basename"
    ∷ lit "cat"
    ∷ lit "chmod"
    ∷ lit "chown"
    ∷ lit "cp"
    ∷ lit "cut"
    ∷ lit "date"
    ∷ lit "df"
    ∷ lit "diff"
    ∷ lit "dirname"
    ∷ lit "du"
    ∷ lit "echo"
    ∷ lit "expr"
    ∷ lit "false"
    ∷ lit "find"
    ∷ lit "grep"
    ∷ lit "head"
    ∷ lit "hostname"
    ∷ lit "id"
    ∷ lit "ln"
    ∷ lit "ls"
    ∷ lit "md5sum"
    ∷ lit "mkdir"
    ∷ lit "mktemp"
    ∷ lit "mv"
    ∷ lit "nproc"
    ∷ lit "od"
    ∷ lit "printf"
    ∷ lit "ps"
    ∷ lit "pwd"
    ∷ lit "readlink"
    ∷ lit "rm"
    ∷ lit "rmdir"
    ∷ lit "sed"
    ∷ lit "seq"
    ∷ lit "sha1sum"
    ∷ lit "sha256sum"
    ∷ lit "sleep"
    ∷ lit "sort"
    ∷ lit "stat"
    ∷ lit "sync"
    ∷ lit "tail"
    ∷ lit "tar"
    ∷ lit "tee"
    ∷ lit "touch"
    ∷ lit "tr"
    ∷ lit "true"
    ∷ lit "uname"
    ∷ lit "uniq"
    ∷ lit "wc"
    ∷ lit "which"
    ∷ lit "xargs"
    ∷ []

unfoldable pub hide_schedule_class : Text → ℕ
hide_schedule_class name = if contains ubiquitous_utilities name then 1 else 0

module _ {A : Type 0} (le : A → A → Bool) where
  insert_by : A → List A → List A
  insert_by a [] = a ∷ []
  insert_by a (x ∷ xs) = let rest = insert_by a xs in if le a x then a ∷ x ∷ xs else x ∷ rest

  -- The stable `sort_by` and `sort_by_key`.
  unfoldable pub sort_by : List A → List A
  unfolding insert_by
  sort_by [] = []
  sort_by (x ∷ xs) = insert_by x (sort_by xs)

-- The order of `(hide_schedule_class(&e.name), e.name.clone())`.
unfoldable pub hide_le : ExecutableCandidate → ExecutableCandidate → Bool
hide_le a b =
    if nat_beq (hide_schedule_class a.name) (hide_schedule_class b.name)
    then text_order.le a.name b.name
    else ltb (hide_schedule_class a.name) (hide_schedule_class b.name)

-- The order of `(&a.host, a.port)`.
unfoldable pub intent_le : EgressIntent → EgressIntent → Bool
intent_le a b = if text_eq.beq a.host b.host then leb a.port b.port else text_order.le a.host b.host

-- The derived `PartialEq`.
abbrev pub intent_beq : EgressIntent → EgressIntent → Bool
intent_beq a b =
    text_eq.beq a.host b.host
    && (nat_beq a.port b.port
        && (text_eq.beq a.scheme b.scheme
            && (text_eq.beq a.method b.method
                && (text_eq.beq a.path b.path && text_eq.beq a.decision b.decision))))

abbrev pub has_intent : EgressIntent → List EgressIntent → Bool
has_intent i [] = false
has_intent i (j ∷ js) = if intent_beq j i then true else has_intent i js

unfoldable pub push_intents : List EgressIntent → List EgressIntent → List EgressIntent
push_intents acc [] = acc
push_intents acc (i ∷ is) = push_intents (if has_intent i acc then acc else acc ++ (i ∷ [])) is

unfoldable pub collect_intents : List EgressIntent → List TrialObservations → List EgressIntent
collect_intents acc [] = acc
collect_intents acc (t ∷ trials) = collect_intents (push_intents acc t.egress_intents) trials
