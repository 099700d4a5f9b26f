-- ===== src/Observer/Strace/Listening/Traces.antt =====
-- crates/ovid-observer/src/strace.rs: a socket that listens was bound by a line before.
use ovid.Prelude.{
  ℕ, ◌≡◌, refl, sym, ap, subst, ◌∙◌, inl, inr, Bool, true, false, Option, none, some, List, [], ◌∷◌,
  ◌++◌, Text, lit, find_key, drop_key, first_piece, trim_start_char, ends_with, trim_start_space,
  trim_end_matches, trim_end_space, parse_unsigned, u32_max, split_once_space, put, In, here, there,
  nat_eq, int_eq, text_eq, false≢true, if◌then◌else◌,
}
use ovid.Prelude.Order.{pair_eq}
use ovid.Core.Digest.{strip_prefix}
use ovid.Core.Event.{BoundaryEvent, socket_bound, socket_listening}
use ovid.Observer.Strace.{
  Regexes, LineOutcome, event, events, ignored, unparsed, Parser, Step, Fd, new_parser,
}
use ovid.Observer.Strace.Sockets.Payloads.{quiet}
use ovid.Observer.Strace.Lines.{
  dispatch, stitch, resume, resumed_tail, after_pid, parse_line, unfinished_mark,
}
use ovid.Observer.Strace.Listening.{IsSound, quiet-IsSound, dispatch-IsSound, same_bound}

resume-IsSound :
    (r : Regexes) (p : Parser) (pid : ℕ) (resumed : Text) → IsSound p pid (resume r p pid resumed)
unfolding resume
resume-IsSound r p pid resumed = by_head (find_key (pid, first_piece 32 resumed) p.unfinished)
  where
    by_head :
        (o : Option Text)
        → IsSound p pid (elim o [
          | none ↦ (ignored, p)
          | some head ↦
              dispatch r
                (record p { unfinished = drop_key (pid, first_piece 32 resumed) p.unfinished })
                pid
                (head ++ trim_start_char 32 (resumed_tail resumed))
        ])
    by_head none = quiet-IsSound p pid (ignored, p) (refl, refl)
    by_head (some head) = same_bound p _ pid _ refl (dispatch-IsSound r _ pid _)

stitch-IsSound :
    (r : Regexes) (p : Parser) (pid : ℕ) (rest : Text) → IsSound p pid (stitch r p pid rest)
unfolding stitch
stitch-IsSound r p pid rest =
    by_mark (ends_with unfinished_mark rest) (strip_prefix (lit "<... ") rest)
  where
    by_mark :
        (b : Bool) (o : Option Text)
        → IsSound p pid (
            if b
            then (
              ignored,
              record p {
                unfinished =
                    put
                      (pid, first_piece b'(' rest)
                      (trim_end_matches unfinished_mark rest)
                      p.unfinished;
              },
            )
            else (elim o [ some resumed ↦ resume r p pid resumed | none ↦ dispatch r p pid rest ]))
    by_mark true o = quiet-IsSound p pid _ (refl, refl)
    by_mark false none = dispatch-IsSound r p pid rest
    by_mark false (some resumed) = resume-IsSound r p pid resumed

-- What a line's outcome rests on: the earlier outcomes.
abbrev pub BackedBy : List LineOutcome → LineOutcome → Type 0
BackedBy earlier (event pid (socket_listening address port)) =
    In (event pid (socket_bound address port)) earlier
BackedBy earlier (event pid e) = Unit {0}
BackedBy earlier (events pid es) = quiet (events pid es) ≡ true
BackedBy earlier ignored = Unit {0}
BackedBy earlier unparsed = Unit {0}

-- Of the outcomes in the order of the lines, each rests on those before it.
abbrev pub AllBacked : List LineOutcome → List LineOutcome → Type 0
AllBacked earlier [] = Unit {0}
AllBacked earlier (o ∷ os) = BackedBy earlier o × AllBacked (o ∷ earlier) os

-- The outcomes of the lines in turn.
abbrev pub outcomes : Regexes → Parser → List Text → List LineOutcome
outcomes r p [] = []
outcomes r p (line ∷ lines) = (parse_line r p line).0 ∷ outcomes r (parse_line r p line).1 lines

-- The parser holds bound sockets that earlier lines told of.
abbrev IsTold : List LineOutcome → Parser → Type 0
IsTold earlier p =
    (k : Fd) (v : Text × ℕ)
    → find_key k p.bound ≡ some v
    → In (event k.0 (socket_bound v.0 v.1)) earlier

backed_one :
    (earlier : List LineOutcome) (pid : ℕ) (e : BoundaryEvent)
    → quiet (event pid e) ≡ true
    → BackedBy earlier (event pid e)
backed_one earlier pid (socket_listening address port) h = absurd (false≢true h)
backed_one earlier pid e h = tt

backed_event : (earlier : List LineOutcome) (o : LineOutcome) → quiet o ≡ true → BackedBy earlier o
backed_event earlier (event pid e) h = backed_one earlier pid e h
backed_event earlier (events pid es) h = h
backed_event earlier ignored h = tt
backed_event earlier unparsed h = tt

step-IsTold :
    (earlier : List LineOutcome) (p : Parser) (pid : ℕ) (s : Step)
    → IsTold earlier p
    → IsSound p pid s
    → BackedBy earlier s.0 × IsTold (s.0 ∷ earlier) s.1
step-IsTold earlier p pid s t h = (
  elim (h.backed) [
    | inl q ↦ backed_event earlier s.0 q
    | inr (fd, v, found, e) ↦ subst (BackedBy earlier) (sym e) (t (pid, fd) v found)
  ],
  λ k v q. elim (h.fresh k q) [
    | inl old ↦ there (t k v old)
    | inr (same, e) ↦ here (ap (λ n. event n (socket_bound v.0 v.1)) same ∙ sym e)
  ],
)

-- A line that tells nothing, or a call of a process.
line-IsTold :
    (r : Regexes) (earlier : List LineOutcome) (p : Parser) (raw : Text)
    → IsTold earlier p
    → BackedBy earlier (parse_line r p raw).0
      × IsTold ((parse_line r p raw).0 ∷ earlier) (parse_line r p raw).1
unfolding parse_line after_pid
line-IsTold r earlier p raw t = by_pieces (split_once_space (trim_end_space raw))
  where
    by_pid :
        (o : Option ℕ) (rest : Text)
        → BackedBy earlier (after_pid r p o rest).0
          × IsTold ((after_pid r p o rest).0 ∷ earlier) (after_pid r p o rest).1
    by_pid none rest = (tt, λ k v q. there (t k v q))
    by_pid (some pid) rest =
        step-IsTold earlier p pid _ t (stitch-IsSound r p pid (trim_start_space rest))

    by_pieces :
        (o : Option (Text × Text))
        → let s = elim o as (λ o. Step) [
          | none ↦ (unparsed, p)
          | some (pid_text, rest) ↦ after_pid r p (parse_unsigned u32_max pid_text) rest
        ] in
          BackedBy earlier s.0 × IsTold (s.0 ∷ earlier) s.1
    by_pieces none = (tt, λ k v q. there (t k v q))
    by_pieces (some (pid_text, rest)) = by_pid (parse_unsigned u32_max pid_text) rest

outcomes-AllBacked :
    (r : Regexes) (earlier : List LineOutcome) (p : Parser) (lines : List Text)
    → IsTold earlier p
    → AllBacked earlier (outcomes r p lines)
outcomes-AllBacked r earlier p [] t = tt
outcomes-AllBacked r earlier p (line ∷ lines) t =
    let (b, t') = line-IsTold r earlier p line t in
    (b, outcomes-AllBacked r ((parse_line r p line).0 ∷ earlier) (parse_line r p line).1 lines t')

-- Whatever the expressions match, each line of a trace that says that a socket listens at an address
-- and a port follows a line that says that the same process bound a socket there.
pub trace-AllBacked : (r : Regexes) (lines : List Text) → AllBacked [] (outcomes r new_parser lines)
unfolding find_key
trace-AllBacked r lines = outcomes-AllBacked r [] new_parser lines (λ k v q. absurd (cc))
