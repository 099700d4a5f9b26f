-- ===== src/Observer/Strace.antt =====
-- crates/ovid-observer/src/strace.rs: from the lines of a trace to boundary events. Lines are ASCII, as
-- strace writes them. The regular expressions are the record `Regexes` of what their captures give:
-- a theorem assumes nothing of them.
pub mod Report
pub mod Lines
pub mod Sockets
pub mod Listening
pub mod Stitching
use ovid.Prelude.{
  ℕ, zero, suc, ℤ, pos, Bool, false, not, ◌&&◌, ◌||◌, Option, none, some, List, [], ◌∷◌, Text, lit,
  length, text_eq, is_negative, is_empty, unwrap_or, parse_signed, i32_max, i64_max, contains,
  ends_with, has_text, rsplit_once, split_once, if◌then◌else◌,
}
use ovid.Prelude.Order.{pair_eq}
use ovid.Core.Event.{BoundaryEvent}

-- A call's return code and the name of the error, as texts.
pub record CallResult : Type 0 where
  pub code : Text
  pub errno : Option Text

pub record Regexes : Type 0 where
  pub execve : Text → Option (Text × Text × CallResult)
  pub open_call : Text → Option (Text × Option Text × CallResult)
  pub stat_miss : Text → Option (Text × Text)
  pub stat_hit : Text → Option Text
  pub inet : Text → Option Text
  pub inet_addr : Text → Option (Option Text × Option Text)
  pub unix_path : Text → Option Text
  pub result : Text → Option CallResult
  pub fd_prefix : Text → Option Text
  pub data_fd : Text → Option Text
  pub exited : Text → Option Text
  pub killed : Text → Option Text

pub data LineOutcome : Type 0 where
  event : (pid : ℕ) → BoundaryEvent → LineOutcome
  events : (pid : ℕ) → List BoundaryEvent → LineOutcome
  ignored unparsed : LineOutcome

abbrev pub Fd : Type 0
Fd = ℕ × ℤ

pub record Parser : Type 0 where
  pub unfinished : List ((ℕ × Text) × Text)
  pub bound : List (Fd × (Text × ℕ))
  pub dns_peers : List (Fd × Text)
  pub executables : List (ℕ × Text)

-- `Parser::default()`
abbrev pub new_parser : Parser
new_parser = record { unfinished = []; bound = []; dns_peers = []; executables = [] }

abbrev pub Step : Type 0
Step = LineOutcome × Parser

unfoldable pub is_executable_probe : Text → Bool
is_executable_probe path = elim (rsplit_once b'/' path) [
  | none ↦ false
  | some (dir, base) ↦
      not (is_empty base)
      && (not (has_text (lit ".") base)
          && (text_eq.beq dir (lit "/bin")
              || (text_eq.beq dir (lit "/sbin")
                  || (ends_with (lit "/bin") dir || ends_with (lit "/sbin") dir))))
]

unfoldable pub is_shared_object : Text → Bool
is_shared_object path = ends_with (lit ".so") path || has_text (lit ".so.") path

unfoldable pub result_label : ℤ → Text
result_label code = if is_negative code then lit "error" else lit "success"

-- `caps[n].parse().unwrap_or(0)` of an `i64`, and the error name where it is negative.
unfoldable pub read_result : CallResult → ℤ × Option Text
read_result c =
    let code = unwrap_or (parse_signed i64_max c.code) (pos 0) in
    (code, if is_negative code then c.errno else none)

unfoldable pub call_result : Regexes → Text → ℤ × Option Text
unfolding read_result
call_result r rest = elim (r.result rest) [ none ↦ (pos 0, none) | some c ↦ read_result c ]

-- The first quoted text, and what follows it.
next_argument : Text → Option (Text × Text)
next_argument rest = elim (split_once 34 rest) [
  | none ↦ none
  | some (before, after) ↦ split_once 34 after
]

-- On fuel: a round takes at least two bytes.
arguments : ℕ → Text → List Text
arguments zero rest = []
arguments (suc fuel) rest = elim (next_argument rest) [
  | none ↦ []
  | some (argument, after) ↦ argument ∷ arguments fuel after
]

unfoldable pub parse_argv_list : Text → List Text
unfolding arguments next_argument
parse_argv_list list = arguments (length list) list
