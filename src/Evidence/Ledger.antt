-- ===== src/Evidence/Ledger.antt =====
-- crates/ovid-evidence/src/ledger.rs: the append-only ledger. The file is its text, `none` where no
-- file exists; reading it succeeds, and how far a write comes is an argument.
pub mod Lines
pub mod Chain
pub mod Appends
use ovid.Prelude.{
  ◌≡◌, ℕ, ◌+◌, ◌%◌, ◌^◌, Bool, true, false, not, ◌||◌, Option, none, some, List, [], ◌∷◌, ◌++◌,
  Text, lit, take, any, is_empty, contains, starts_with, option_eq, nat_beq, if◌then◌else◌, text_eq,
  ◌&&◌,
}
use ovid.Prelude.Order.{upsert, lookup, text_order}
use ovid.Core.Digest.{Digest, digest_eq}
use ovid.Core.Id.{OvidId}
use ovid.Evidence.Record.{EvidenceRecord, JsonCodec, digest}

pub data LedgerError : Type 0 where
  io : LedgerError
  corrupt_line : LedgerError
  chain_break : OvidId → LedgerError
  head_mismatch : LedgerError

pub data Result {ℓ} (A : Type ℓ) : Type ℓ where
  ok : A → Result A
  err : LedgerError → Result A

abbrev pub File : Type 0
File = Option Text

abbrev is_newline : ℕ → Bool
is_newline c = nat_beq c 10

abbrev pub at_newline : Text → Bool
at_newline [] = false
at_newline (c ∷ s) = is_newline c

-- A character before the lines of the rest; a carriage return that ends a line is no part of it.
abbrev pub in_line : ℕ → List Text → List Text
in_line c [] = (c ∷ []) ∷ []
in_line c (line ∷ rest) = (c ∷ line) ∷ rest

-- `BufReader::lines`: what stands before each newline, and what stands after the last.
unfoldable pub lines : Text → List Text
lines [] = []
lines (c ∷ s) =
    let rest = lines s in
    if is_newline c
    then [] ∷ rest
    else if nat_beq c 13 && at_newline s
    then rest
    else in_line c rest

pub record EvidenceLedger : Type 0 where
  pub head : Option Digest
  pub count : ℕ
  pub index : List (OvidId × EvidenceRecord)

abbrev pub empty : EvidenceLedger
empty = record { head = none; count = 0; index = [] }

abbrev pub head_eq : Option Digest → Option Digest → Bool
head_eq = (option_eq ⦃e = digest_eq⦄).beq

-- The white space of Unicode, by its bytes.
white_space : List Text
white_space =
    (9 ∷ [])
    ∷ (10 ∷ [])
    ∷ (11 ∷ [])
    ∷ (12 ∷ [])
    ∷ (13 ∷ [])
    ∷ (32 ∷ [])
    ∷ (194 ∷ 133 ∷ [])
    ∷ (194 ∷ 160 ∷ [])
    ∷ (225 ∷ 154 ∷ 128 ∷ [])
    ∷ (226 ∷ 128 ∷ 128 ∷ [])
    ∷ (226 ∷ 128 ∷ 129 ∷ [])
    ∷ (226 ∷ 128 ∷ 130 ∷ [])
    ∷ (226 ∷ 128 ∷ 131 ∷ [])
    ∷ (226 ∷ 128 ∷ 132 ∷ [])
    ∷ (226 ∷ 128 ∷ 133 ∷ [])
    ∷ (226 ∷ 128 ∷ 134 ∷ [])
    ∷ (226 ∷ 128 ∷ 135 ∷ [])
    ∷ (226 ∷ 128 ∷ 136 ∷ [])
    ∷ (226 ∷ 128 ∷ 137 ∷ [])
    ∷ (226 ∷ 128 ∷ 138 ∷ [])
    ∷ (226 ∷ 128 ∷ 168 ∷ [])
    ∷ (226 ∷ 128 ∷ 169 ∷ [])
    ∷ (226 ∷ 128 ∷ 175 ∷ [])
    ∷ (226 ∷ 129 ∷ 159 ∷ [])
    ∷ (227 ∷ 128 ∷ 128 ∷ [])
    ∷ []

-- What is pending of a white space after one more byte, if it can still become one.
next_pending : Text → Option Text
unfolding white_space
next_pending pending =
    if contains white_space pending
    then some []
    else if any (starts_with pending) white_space
    then some pending
    else none

-- The text, after the pending bytes, is white space.
unfoldable pub all_blank : Text → Text → Bool
unfolding next_pending
all_blank pending [] = is_empty pending
all_blank pending (c ∷ s) = elim (next_pending (pending ++ (c ∷ []))) [
  | none ↦ false
  | some after ↦ all_blank after s
]

-- `line.trim().is_empty()`
unfoldable pub is_blank : Text → Bool
is_blank line = all_blank [] line

-- A record read before the rest.
abbrev pub prepend : EvidenceRecord → Result (List EvidenceRecord) → Result (List EvidenceRecord)
prepend r (ok rs) = ok (r ∷ rs)
prepend r (err e) = err e

pub ok_injective {ℓ} : {A : Type ℓ} {a b : A} → ok a ≡ ok b → a ≡ b
ok_injective p = cc

-- The record with its chain link.
abbrev pub linked : EvidenceLedger → EvidenceRecord → EvidenceRecord
linked l r = record r { previous = l.head }

unfoldable pub get : EvidenceLedger → OvidId → Option EvidenceRecord
get l id = lookup id l.index

-- The comparison that ends `verify_chain`.
pub compare_head : Option Digest → Result (Option Digest) → Result (Option Digest)
compare_head head (err e) = err e
compare_head head (ok previous) =
    if not (head_eq previous head) then err head_mismatch else ok previous

-- What `append` comes to: the file is not opened, the write stops after some bytes, or it is
-- complete.
pub data Write : Type 0 where
  unopened : Write
  stopped : ℕ → Write
  complete : Write

-- The file after a text was appended.
pub written : File → Text → File
written none t = some t
written (some old) t = some (old ++ t)

-- `writeln!`
abbrev pub line_of : Text → Text
line_of json = json ++ (10 ∷ [])

module _ (k : JsonCodec) where
  -- What `open` and `append` do to the ledger for a record that stands in the file.
  pub note : EvidenceLedger → EvidenceRecord → EvidenceLedger
  note l r = record {
    head = some (digest k r);
    count = (l.count + 1) % 2 ^ 64;
    index = upsert r.id (λ _. r) r l.index;
  }

  -- The loop of `open`.
  pub load : EvidenceLedger → List Text → Result EvidenceLedger
  unfolding note
  load l [] = ok l
  load l (line ∷ lines) =
      let rest = load l lines in
      let loaded : Result EvidenceLedger = elim (k.parse_record line) [
        | none ↦ err corrupt_line
        | some r ↦ load (note l r) lines
      ] in
      if is_blank line then rest else loaded

  unfoldable pub open_ledger : File → Result EvidenceLedger
  unfolding load
  open_ledger none = ok empty
  open_ledger (some text) = load empty (lines text)

  unfoldable pub append :
      Write → EvidenceLedger → File → EvidenceRecord → Result Digest × EvidenceLedger × File
  unfolding note written
  append unopened l f r = (err io, l, f)
  append (stopped n) l f r = (err io, l, written f (take n (line_of (k.record_json (linked l r)))))
  append complete l f r = (
    ok (digest k (linked l r)),
    note l (linked l r),
    written f (line_of (k.record_json (linked l r))),
  )

  pub read_lines : List Text → Result (List EvidenceRecord)
  read_lines [] = ok []
  read_lines (line ∷ lines) =
      let rest = read_lines lines in
      let record_and_rest : Result (List EvidenceRecord) = elim (k.parse_record line) [
        | none ↦ err corrupt_line
        | some r ↦ prepend r rest
      ] in
      if is_blank line then rest else record_and_rest

  unfoldable pub iter_all : File → Result (List EvidenceRecord)
  unfolding read_lines
  iter_all none = ok []
  iter_all (some text) = read_lines (lines text)

  -- The loop of `verify_chain`, from the digest of what stands before.
  unfoldable pub check_links : Option Digest → List EvidenceRecord → Result (Option Digest)
  check_links previous [] = ok previous
  check_links previous (r ∷ rs) =
      let rest = check_links (some (digest k r)) rs in
      if not (head_eq r.previous previous) then err (chain_break r.id) else rest

  pub verify_records : Option Digest → Result (List EvidenceRecord) → Result (Option Digest)
  unfolding check_links compare_head
  verify_records head (err e) = err e
  verify_records head (ok rs) = compare_head head (check_links none rs)

  unfoldable pub verify_chain : EvidenceLedger → File → Result (Option Digest)
  unfolding iter_all verify_records
  verify_chain l f = verify_records l.head (iter_all f)
