-- ===== src/Examples/Traced.antt =====
-- crates/ovid-observer/src/strace.rs at concrete lines.
use ovid.Prelude.{
  ◌≡◌, refl, none, some, List, [], ◌∷◌, ◌++◌, Text, lit, ends_with, list_beq, find_key,
  trim_start_char, subst, starts_with, parse_unsigned, parse_signed, split_once_space,
  trim_end_space, trim_start_space,
}
use ovid.Core.Digest.{strip_prefix}
use ovid.Core.Event.{socket_bound, socket_listening}
use ovid.Observer.Strace.{Regexes, event, ignored, unparsed, new_parser, call_result}
use ovid.Observer.Strace.Sockets.{parse_bind, parse_listen, bind_to, address_in, listening}
use ovid.Observer.Strace.Lines.{
  stitch, dispatch, exit_stage, exec_stage, open_stage, stat_stage, call_stage, after_pid,
  parse_line, unfinished_mark,
}
use ovid.Observer.Strace.Listening.Traces.{AllBacked, outcomes, trace-AllBacked}
use ovid.Observer.Strace.Stitching.{stitch-whole}

abbrev unmatched : Regexes
unmatched = record {
  execve = λ _. none;
  open_call = λ _. none;
  stat_miss = λ _. none;
  stat_hit = λ _. none;
  inet = λ _. none;
  inet_addr = λ _. none;
  unix_path = λ _. none;
  result = λ _. some (record { code = lit "0"; errno = none });
  fd_prefix = λ _. some (lit "3");
  data_fd = λ _. none;
  exited = λ _. none;
  killed = λ _. none;
}

abbrev lines : List Text
lines =
    lit "7 bind(3, {sa_family=AF_INET, sin_port=htons(80)}, 16) = 0"
    ∷ lit "7 listen(3, 128) = 0"
    ∷ lit "no line"
    ∷ []

-- What the expressions of the program capture of the lines.
abbrev matched : Regexes
matched = record unmatched {
  inet = λ _. some (lit "80");
  inet_addr = λ _. some (some (lit "0.0.0.0"), none);
}

-- The same by running the parser: the socket is bound, then it listens.
traced :
    outcomes matched new_parser lines
    ≡ event 7 (socket_bound (lit "0.0.0.0") 80)
      ∷ event 7 (socket_listening (lit "0.0.0.0") 80)
      ∷ unparsed
      ∷ []
unfolding parse_line after_pid stitch dispatch lit find_key ends_with list_beq exit_stage exec_stage
    open_stage stat_stage call_stage parse_bind parse_listen bind_to address_in listening
    call_result starts_with parse_unsigned parse_signed split_once_space trim_end_space
    trim_start_space strip_prefix
traced = refl

trace-AllBacked_example : AllBacked [] (
    event 7 (socket_bound (lit "0.0.0.0") 80)
    ∷ event 7 (socket_listening (lit "0.0.0.0") 80)
    ∷ unparsed
    ∷ [])
trace-AllBacked_example = subst (AllBacked []) traced (trace-AllBacked matched lines)

stitch-whole_example :
    let call = lit "read" ++ (b'(' ∷ lit "3,") in
    let line = lit "<... " ++ (lit "read" ++ (32 ∷ (lit "resumed>" ++ lit " 4096) = 12"))) in
    let first = stitch unmatched new_parser 7 (call ++ unfinished_mark) in
    (first.0 ≡ ignored)
    × (stitch unmatched first.1 7 line
        ≡ dispatch unmatched new_parser 7 (call ++ trim_start_char 32 (lit " 4096) = 12")))
unfolding lit find_key ends_with list_beq
stitch-whole_example =
    stitch-whole unmatched new_parser 7 (lit "read") (lit "3,") (lit " 4096) = 12") refl refl refl
      refl
