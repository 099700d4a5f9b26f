-- ===== src/Observer/Strace/Lines.antt =====
-- crates/ovid-observer/src/strace.rs: one line of a trace, and the whole of it. An outcome of a stage
-- is `none` where the code goes on to the next.
use ovid.Prelude.{
  ℕ, ◌+◌, ◌%◌, ◌^◌, pos, negsuc, Bool, false, not, ◌&&◌, ◌||◌, Option, none, some, List, [], ◌∷◌,
  ◌++◌, Text, lit, find_key, put, drop_key, nat_eq, int_eq, text_eq, is_none, any, length,
  unwrap_or, parse_signed, parse_unsigned, i32_max, u32_max, starts_with, ends_with, has_text,
  first_piece, split_once_at, split_once_space, trim_end_matches, trim_start_space, trim_end_space,
  trim_start_char, if◌then◌else◌,
}
use ovid.Prelude.Order.{pair_eq}
use ovid.Core.Digest.{strip_prefix}
use ovid.Core.Event.{BoundaryEvent, process_exited, process_exec, file_opened, shared_object_mapped}
use ovid.Core.Id.{OvidId, IdGenerator, next}
use ovid.Core.Trust.{t2}
use ovid.Observer.Strace.{
  Regexes, LineOutcome, event, events, ignored, unparsed, Parser, Step, read_result,
  is_executable_probe, is_shared_object, parse_argv_list,
}
use ovid.Observer.Strace.Report.{ObservationReport}
use ovid.Observer.Strace.Sockets.{parse_connect, parse_bind, parse_listen, parse_datagram}

abbrev Stage : Type 0
Stage = Option Step

abbrev pub or_next : Stage → Step → Step
or_next none later = later
or_next (some step) later = step

-- Exits, kills and notes of a signal.
unfoldable pub exit_stage : Regexes → Parser → ℕ → Text → Stage
exit_stage r p pid rest = elim (r.exited rest) [
  | some digits ↦
      some (event pid (process_exited (unwrap_or (parse_signed i32_max digits) (negsuc 0)) none), p)
  | none ↦
      (if not (is_none (r.killed rest))
        then some (event pid (process_exited (negsuc 0) (some (pos 9))), p)
        else if starts_with (lit "---") rest
        then some (ignored, p)
        else none)
]

executed : Parser → ℕ → Text → List Text → Option Text → Step
executed p pid path argv errno = (
  event pid (process_exec path argv errno),
  if is_none errno then record p { executables = put pid path p.executables } else p,
)

unfoldable pub exec_stage : Regexes → Parser → ℕ → Text → Stage
unfolding executed
exec_stage r p pid rest = elim (r.execve rest) [
  | none ↦ none
  | some (path, argv, result) ↦
      some (executed p pid path (parse_argv_list argv) (read_result result).1)
]

is_write : Text → Bool
is_write flags =
    has_text (lit "O_WRONLY") flags
    || (has_text (lit "O_RDWR") flags || has_text (lit "O_CREAT") flags)

opened : Text → Option Text → Bool → BoundaryEvent
opened path errno write =
    if is_none errno && (not write && is_shared_object path)
    then shared_object_mapped path
    else file_opened path errno write

unfoldable pub open_stage : Regexes → Parser → ℕ → Text → Stage
unfolding opened is_write
open_stage r p pid rest = elim (r.open_call rest) [
  | none ↦ none
  | some (path, flags, result) ↦
      some (event pid (opened path (read_result result).1 (is_write (unwrap_or flags []))), p)
]

-- A successful stat that is no probe of an executable.
plain_stat : Parser → Text → Stage
plain_stat p rest =
    if any (λ call. starts_with call rest)
      (lit "newfstatat(" ∷ lit "statx(" ∷ lit "access(" ∷ lit "faccessat" ∷ [])
    then some (ignored, p)
    else none

unfoldable pub stat_stage : Regexes → Parser → ℕ → Text → Stage
unfolding plain_stat
stat_stage r p pid rest = elim (r.stat_miss rest) [
  | some (path, errno) ↦ some (event pid (file_opened path (some errno) false), p)
  | none ↦ (elim (r.stat_hit rest) [
    | some path ↦
        (if is_executable_probe path
          then some (event pid (file_opened path none false), p)
          else plain_stat p rest)
    | none ↦ plain_stat p rest
  ])
]

pub is_datagram_call : Text → Bool
is_datagram_call rest =
    any (λ call. starts_with call rest)
      (lit "sendto(" ∷ lit "sendmsg(" ∷ lit "sendmmsg(" ∷ lit "recvfrom(" ∷ lit "recvmsg(" ∷ [])

pub is_silent_call : Text → Bool
is_silent_call rest = starts_with (lit "socket(") rest || starts_with (lit "exit_group(") rest

unfoldable pub call_stage : Regexes → Parser → ℕ → Text → Step
unfolding is_datagram_call is_silent_call
call_stage r p pid rest =
    if starts_with (lit "connect(") rest
    then parse_connect r p pid rest
    else if starts_with (lit "bind(") rest
    then parse_bind r p pid rest
    else if starts_with (lit "listen(") rest
    then parse_listen r p pid rest
    else if is_datagram_call rest
    then parse_datagram r p pid rest
    else if is_silent_call rest
    then (ignored, p)
    else (unparsed, p)

-- What `parse_line` does with a whole call.
unfoldable pub dispatch : Regexes → Parser → ℕ → Text → Step
dispatch r p pid rest = or_next (exit_stage r p pid rest) (
    or_next (exec_stage r p pid rest) (
      or_next (open_stage r p pid rest)
        (or_next (stat_stage r p pid rest) (call_stage r p pid rest))))

abbrev pub unfinished_mark : Text
unfinished_mark = lit "<unfinished ...>"

-- `resumed.split_once("resumed>").map(|(_, t)| t).unwrap_or("")`
unfoldable pub resumed_tail : Text → Text
resumed_tail resumed = elim (split_once_at (lit "resumed>") resumed) [
  | none ↦ []
  | some (before, after) ↦ after
]

-- A call that is resumed is its head and its tail, without what strace writes between them.
unfoldable pub resume : Regexes → Parser → ℕ → Text → Step
resume r p pid resumed =
    let key : ℕ × Text = (pid, first_piece 32 resumed) in
    elim (find_key key p.unfinished) [
      | none ↦ (ignored, p)
      | some head ↦
          dispatch r (record p { unfinished = drop_key key p.unfinished }) pid
            (head ++ trim_start_char 32 (resumed_tail resumed))
    ]

-- The stitching of unfinished and resumed pairs.
unfoldable pub stitch : Regexes → Parser → ℕ → Text → Step
stitch r p pid rest =
    if ends_with unfinished_mark rest
    then (
      ignored,
      record p {
        unfinished =
            put (pid, first_piece b'(' rest) (trim_end_matches unfinished_mark rest) p.unfinished;
      },
    )
    else (elim (strip_prefix (lit "<... ") rest) [
      | some resumed ↦ resume r p pid resumed
      | none ↦ dispatch r p pid rest
    ])

-- With the process that begins the line.
unfoldable pub after_pid : Regexes → Parser → Option ℕ → Text → Step
after_pid r p none rest = (unparsed, p)
after_pid r p (some pid) rest = stitch r p pid (trim_start_space rest)

unfoldable pub parse_line : Regexes → Parser → Text → Step
parse_line r p raw = elim (split_once_space (trim_end_space raw)) [
  | none ↦ (unparsed, p)
  | some (pid_text, rest) ↦ after_pid r p (parse_unsigned u32_max pid_text) rest
]

-- The variables of `collect`; the clock is an argument.
pub record Collection : Type 0 where
  pub report : ObservationReport
  pub parser : Parser
  pub ids : IdGenerator

-- What the loop's surroundings give: the run, the time now, and the version.
pub record Context : Type 0 where
  pub run_id : OvidId
  pub millis : ℕ
  pub wall_time : Text
  pub version : Text

unfoldable pub push_event : Context → ℕ → Collection → BoundaryEvent → Collection
push_event x pid c e =
    let fresh = next c.ids (lit "evidence") x.millis in
    record c {
      ids = fresh.1;
      report = record (c.report) {
        events =
            c.report.events
            ++ (record {
              event_id = fresh.0;
              run_id = x.run_id;
              sequence = length c.report.events;
              wall_time = some x.wall_time;
              provider = lit "ovid-strace-observer";
              provider_version = x.version;
              trust_tier = t2;
              process = some (record {
                pid = pid;
                parent_pid = none;
                executable = find_key pid c.parser.executables;
              });
              event = e;
            }
                ∷ []);
      };
    }

push_events : Context → ℕ → Collection → List BoundaryEvent → Collection
push_events x pid c [] = c
push_events x pid c (e ∷ es) = push_events x pid (push_event x pid c e) es

-- The match on the outcome of a line.
unfoldable pub take_outcome : Context → Collection → LineOutcome → Collection
unfolding push_events
take_outcome x c (event pid e) = push_event x pid c e
take_outcome x c (events pid es) = push_events x pid c es
take_outcome x c ignored = c
take_outcome x c unparsed = record c {
  report = record (c.report) { unparsed_lines = (c.report.unparsed_lines + 1) % 2 ^ 64 };
}

unfoldable pub collect_line : Regexes → Context → Collection → Text → Collection
collect_line r x c line =
    let step = parse_line r c.parser line in
    let counted = record (c.report) { raw_line_count = (c.report.raw_line_count + 1) % 2 ^ 64 } in
    take_outcome x (record c { report = counted; parser = step.1 }) step.0

unfoldable pub collect_lines : Regexes → Context → Collection → List Text → Collection
collect_lines r x c [] = c
collect_lines r x c (line ∷ lines) = collect_lines r x (collect_line r x c line) lines
