-- ===== src/Observer/Strace/Listening.antt =====
-- crates/ovid-observer/src/strace.rs: what a call does to the sockets that are bound.
pub mod Traces
use mathlib.Core.Option.{some-injective}
use ovid.Prelude.{
  ℕ, ℤ, ◌≡◌, ◌≢◌, refl, sym, ap, subst, ◌∙◌, ◌⊎◌, inl, inr, Bool, true, false, not, Option, none,
  some, List, [], ◌∷◌, ◌++◌, Text, arith, find_key, unwrap_or, lit, starts_with, all, In, here,
  there, is_zero, nat_eq, int_eq, Bool-cases, Option-cases, if◌then◌else◌, ◌>>=◌,
}
use ovid.Prelude.Order.{pair_eq}
use ovid.Core.Event.{BoundaryEvent, socket_bound, socket_listening}
use ovid.Observer.Strace.{
  Regexes, LineOutcome, event, events, ignored, unparsed, Parser, Step, Fd, new_parser, call_result,
}
use ovid.Observer.Strace.Sockets.{
  parse_connect, parse_bind, parse_listen, parse_datagram, bind_to, listening, both, address_in,
  fd_of, port_of,
}
use ovid.Observer.Strace.Sockets.Payloads.{is_listening, quiet, payload-quiet}
use ovid.Observer.Strace.Lines.{
  dispatch, or_next, exit_stage, exec_stage, open_stage, stat_stage, call_stage, is_datagram_call,
  is_silent_call, stitch, resume, after_pid, parse_line,
}

abbrev pub IsQuiet : Parser → Step → Type 0
IsQuiet p s = (s.1.bound ≡ p.bound) × (quiet s.0 ≡ true)

exit_stage-IsQuiet :
    (r : Regexes) (p : Parser) (pid : ℕ) (rest : Text) {s : Step}
    → exit_stage r p pid rest ≡ some s
    → IsQuiet p s
unfolding exit_stage
exit_stage-IsQuiet r p pid rest h = ground arith

exec_stage-IsQuiet :
    (r : Regexes) (p : Parser) (pid : ℕ) (rest : Text) {s : Step}
    → exec_stage r p pid rest ≡ some s
    → IsQuiet p s
unfolding exec_stage
exec_stage-IsQuiet r p pid rest h = ground arith

open_stage-IsQuiet :
    (r : Regexes) (p : Parser) (pid : ℕ) (rest : Text) {s : Step}
    → open_stage r p pid rest ≡ some s
    → IsQuiet p s
unfolding open_stage
open_stage-IsQuiet r p pid rest h = ground arith

stat_stage-IsQuiet :
    (r : Regexes) (p : Parser) (pid : ℕ) (rest : Text) {s : Step}
    → stat_stage r p pid rest ≡ some s
    → IsQuiet p s
unfolding stat_stage
stat_stage-IsQuiet r p pid rest h = ground arith

parse_connect-IsQuiet :
    (r : Regexes) (p : Parser) (pid : ℕ) (rest : Text) → IsQuiet p (parse_connect r p pid rest)
unfolding parse_connect
parse_connect-IsQuiet r p pid rest = ground arith

parse_datagram-IsQuiet :
    (r : Regexes) (p : Parser) (pid : ℕ) (rest : Text) → IsQuiet p (parse_datagram r p pid rest)
unfolding parse_datagram
parse_datagram-IsQuiet r p pid rest = grind (arith, payload-quiet)

-- What a step may do: an entry of `bound` comes with the event that a socket was bound, and an event
-- that a socket listens with an entry.
pub record IsSound (p : Parser) (pid : ℕ) (s : Step) : Type 0 where
  pub fresh :
      (k : Fd) {v : Text × ℕ}
      → find_key k s.1.bound ≡ some v
      → (find_key k p.bound ≡ some v) ⊎ ((k.0 ≡ pid) × (s.0 ≡ event pid (socket_bound v.0 v.1)))
  pub backed :
      (quiet s.0 ≡ true)
      ⊎ ((fd : ℤ) × (v : Text × ℕ) × (find_key (pid, fd) p.bound ≡ some v)
          × (s.0 ≡ event pid (socket_listening v.0 v.1)))

pub quiet-IsSound : (p : Parser) (pid : ℕ) (s : Step) → IsQuiet p s → IsSound p pid s
quiet-IsSound p pid s h = record {
  fresh = λ k q. inl (ap (find_key k) (sym h.0) ∙ q);
  backed = inl h.1;
}

bound_event :
    (pid : ℕ) {v w : Text × ℕ}
    → v ≡ w
    → event pid (socket_bound v.0 v.1) ≡ event pid (socket_bound w.0 w.1)
bound_event pid e = ap (λ (x : Text × ℕ). event pid (socket_bound x.0 x.1)) e

bind_to-IsSound :
    (p : Parser) (pid : ℕ) (fd : ℤ) (port : ℕ) (address : Text) (code : ℤ)
    → IsSound p pid (bind_to p pid fd port address code)
unfolding bind_to find_key
bind_to-IsSound p pid fd port address code = elim (Bool-cases (is_zero code)) [
  | inr f ↦ rw f (quiet-IsSound p pid (ignored, p) (refl, refl))
  | inl t ↦ rw t (record {
    fresh = λ k {v} q. elim (Bool-cases (pair_eq.beq (pid, fd) k)) [
      | inl u ↦ inr (
        ap (λ (x : Fd). x.0) (sym ((pair_eq.beq_iff (pid, fd) k).0 u)),
        bound_event pid (some-injective (address, port) v (rw u at q)),
      )
      | inr n ↦ inl (rw n at q)
    ];
    backed = inl refl;
  })
]

listening-IsSound :
    (p : Parser) (pid : ℕ) (fd : ℤ) (o : Option (Text × ℕ))
    → find_key (pid, fd) p.bound ≡ o
    → IsSound p pid (listening p pid o)
unfolding listening
listening-IsSound p pid fd none h = quiet-IsSound p pid (ignored, p) (refl, refl)
listening-IsSound p pid fd (some v) h = record {
  fresh = λ k q. inl q;
  backed = inr (fd, v, h, refl);
}

parse_bind-IsSound :
    (r : Regexes) (p : Parser) (pid : ℕ) (rest : Text) → IsSound p pid (parse_bind r p pid rest)
unfolding parse_bind
parse_bind-IsSound r p pid rest = by_captures (both (r.fd_prefix rest) (r.inet rest))
  where
    by_captures :
        (o : Option (Text × Text))
        → IsSound p pid (elim o [
          | none ↦ (ignored, p)
          | some (fd, port) ↦
              bind_to p pid
                (fd_of fd)
                (port_of port)
                (unwrap_or (address_in r rest) (lit "0.0.0.0"))
                (call_result r rest).0
        ])
    by_captures none = quiet-IsSound p pid (ignored, p) (refl, refl)
    by_captures (some (fd, port)) = bind_to-IsSound p pid (fd_of fd) (port_of port) _ _

parse_listen-IsSound :
    (r : Regexes) (p : Parser) (pid : ℕ) (rest : Text) → IsSound p pid (parse_listen r p pid rest)
unfolding parse_listen
parse_listen-IsSound r p pid rest = by_capture (r.fd_prefix rest) (is_zero (call_result r rest).0)
  where
    by_capture :
        (o : Option Text) (b : Bool)
        → IsSound p pid (elim o [
          | none ↦ (ignored, p)
          | some fd ↦
              (if b then listening p pid (find_key (pid, fd_of fd) p.bound) else (ignored, p))
        ])
    by_capture none b = quiet-IsSound p pid (ignored, p) (refl, refl)
    by_capture (some fd) false = quiet-IsSound p pid (ignored, p) (refl, refl)
    by_capture (some fd) true = listening-IsSound p pid (fd_of fd) _ refl

if-IsSound :
    (p : Parser) (pid : ℕ) (b : Bool) {s t : Step}
    → IsSound p pid s
    → IsSound p pid t
    → IsSound p pid (if b then s else t)
if-IsSound p pid true h k = h
if-IsSound p pid false h k = k

call_stage-IsSound :
    (r : Regexes) (p : Parser) (pid : ℕ) (rest : Text) → IsSound p pid (call_stage r p pid rest)
unfolding call_stage
call_stage-IsSound r p pid rest =
    if-IsSound p pid (starts_with (lit "connect(") rest)
      (quiet-IsSound p pid (parse_connect r p pid rest) (parse_connect-IsQuiet r p pid rest))
      (if-IsSound p pid (starts_with (lit "bind(") rest) (parse_bind-IsSound r p pid rest) (
        if-IsSound p pid (starts_with (lit "listen(") rest) (parse_listen-IsSound r p pid rest) (
          if-IsSound p pid (is_datagram_call rest)
            (quiet-IsSound p pid (parse_datagram r p pid rest)
              (parse_datagram-IsQuiet r p pid rest))
            (if-IsSound p pid (is_silent_call rest) (quiet-IsSound p pid (ignored, p) (refl, refl))
              (quiet-IsSound p pid (unparsed, p) (refl, refl))))))

or_next-IsSound :
    (p : Parser) (pid : ℕ) (o : Option Step) (later : Step)
    → ((s : Step) → o ≡ some s → IsQuiet p s)
    → IsSound p pid later
    → IsSound p pid (or_next o later)
or_next-IsSound p pid none later h k = k
or_next-IsSound p pid (some s) later h k = quiet-IsSound p pid s (h s refl)

pub dispatch-IsSound :
    (r : Regexes) (p : Parser) (pid : ℕ) (rest : Text) → IsSound p pid (dispatch r p pid rest)
unfolding dispatch
dispatch-IsSound r p pid rest =
    or_next-IsSound p pid (exit_stage r p pid rest) _ (λ s. exit_stage-IsQuiet r p pid rest)
      (or_next-IsSound p pid (exec_stage r p pid rest) _ (λ s. exec_stage-IsQuiet r p pid rest)
        (or_next-IsSound p pid (open_stage r p pid rest) _ (λ s. open_stage-IsQuiet r p pid rest)
          (or_next-IsSound p pid (stat_stage r p pid rest) _ (λ s. stat_stage-IsQuiet r p pid rest)
            (call_stage-IsSound r p pid rest))))

-- Only `bound` counts.
pub same_bound :
    (p q : Parser) (pid : ℕ) (s : Step) → q.bound ≡ p.bound → IsSound q pid s → IsSound p pid s
same_bound p q pid s e h =
    let step =
      subst (λ m. IsSound (record p { bound = m }) pid s) e
        (record { fresh = h.fresh; backed = h.backed }) in
    record { fresh = step.fresh; backed = step.backed }
