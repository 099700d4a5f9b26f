-- ===== src/Cli/Lab/Port/Told.antt =====
-- crates/ovid-cli/src/lab.rs: what the outcome of a trial tells of the run.
use ovid.Prelude.{
  ℤ, pos, negsuc, zero, suc, ◌≡◌, ◌≢◌, refl, Bool, true, false, ◌&&◌, Option, none, some, lit, ◌++◌,
  show_int,
}
use ovid.Domain.Trial.{TrialOutcome}
use ovid.Cli.Lab.{RunResult, success, exited_zero, signature, disposition}

-- What an outcome tells of a run: it passed with exit code 0 in time, and otherwise its signature
-- says how it ended.
pub data Tells (r : RunResult) (o : TrialOutcome) : Type 0 where
  passes :
      r.timed_out ≡ false
      → r.exit_code ≡ some (pos 0)
      → o ≡ record { passed = true; failure_signature = none }
      → Tells r o
  overran :
      r.timed_out ≡ true
      → o ≡ record { passed = false; failure_signature = some (lit "timeout") }
      → Tells r o
  exited :
      (code : ℤ)
      → r.timed_out ≡ false
      → r.exit_code ≡ some code
      → code ≢ pos 0
      → o ≡ record { passed = false; failure_signature = some (lit "exit:" ++ show_int code) }
      → Tells r o
  killed :
      (signal : ℤ)
      → r.timed_out ≡ false
      → r.exit_code ≡ none
      → r.signal ≡ some signal
      → o ≡ record { passed = false; failure_signature = some (lit "signal:" ++ show_int signal) }
      → Tells r o
  vanished :
      r.timed_out ≡ false
      → r.exit_code ≡ none
      → r.signal ≡ none
      → o ≡ record { passed = false; failure_signature = some (lit "unknown") }
      → Tells r o

abbrev pub outcome_of : RunResult → TrialOutcome
outcome_of r = record { passed = success r; failure_signature = signature r }

never : (b : Bool) → (b && false) ≡ false
never true = refl
never false = refl

pub outcome-Tells : (r : RunResult) → Tells r (outcome_of r)
unfolding success signature exited_zero disposition
outcome-Tells r = by_parts r.timed_out r.exit_code r.signal refl refl refl
  where
    by_parts :
        (t : Bool) (c s : Option ℤ)
        → r.timed_out ≡ t
        → r.exit_code ≡ c
        → r.signal ≡ s
        → Tells r (outcome_of r)
    by_parts true c s t p q = overran t (rw (t, never (exited_zero r.exit_code)) refl)
    by_parts false none none t p q = vanished t p q (rw (t, p, q) refl)
    by_parts false none (some signal) t p q = killed signal t p q (rw (t, p, q) refl)
    by_parts false (some (pos zero)) s t p q = passes t p (rw (t, p) refl)
    by_parts false (some (pos (suc n))) s t p q =
        exited (pos (suc n)) t p (λ e. cc) (rw (t, p) refl)
    by_parts false (some (negsuc n)) s t p q = exited (negsuc n) t p (λ e. cc) (rw (t, p) refl)
