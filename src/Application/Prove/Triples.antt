-- ===== src/Application/Prove/Triples.antt =====
-- crates/ovid-application/src/prove.rs: what an action keeps true of the variables, whichever way it
-- ends: the workflow's state, and the budget of trials.
use ovid.Prelude.{
  ℕ, ◌+◌, ◌^◌, ◌≤◌, ◌<◌, ◌≡◌, refl, ap, ◌∙◌, Bool, true, false, List, [], ◌∷◌, Text, length,
  length-append, arith,
}
use ovid.Domain.Trial.{TrialRecord}
use ovid.Domain.Classify.{CausalConclusion}
use ovid.Application.Workflow.{Workflow, AnalysisState, allows, advance_checked}
use ovid.Application.Workflow
use ovid.Application.Ports.{
  Laboratory, Journal, Answer, answered, refused, LabError, JournalEvent, JournalError,
}
use ovid.Application.Prove.{ProveError, lab_error, journal_error}
use ovid.Application.Prove.Run.{
  Run, Outcome, returned, failed, panicked, Action, pure, ◌>>=◌, and_then, when, choose, call_lab,
  lab_answer, append, journal_answer, advance, limit, push_conclusion, push_trial, count_trial,
  executed, capabilities, journal_conclusions,
}

module _ {σ τ : Type 0} (max : ℕ) where
  -- So many trials have run that are not in the list yet.
  abbrev pub Tracks : AnalysisState → ℕ → Run σ τ → Type 0
  Tracks w n s =
      (s.workflow.state ≡ w) × (length s.trials + n ≡ s.trials_executed) × (s.trials_executed ≤ max)

  -- With a trial left in the budget.
  abbrev pub Left : AnalysisState → Run σ τ → Type 0
  Left w s = Tracks w 0 s × (s.trials_executed < max)

  -- What an early return leaves.
  abbrev pub Spent : ProveError → Run σ τ → Type 0
  Spent e s = (length s.trials ≤ s.trials_executed) × (s.trials_executed ≤ max)

  pub Tracks-Spent :
      (w : AnalysisState) (n : ℕ) (e : ProveError) (s : Run σ τ) → Tracks w n s → Spent e s
  Tracks-Spent w n e s h = (omega (arith, h.1), h.2)

-- `F` holds of an early return.
module _ {σ τ : Type 0} (F : ProveError → Run σ τ → Type 0) where
  -- No panic; what holds after a return, and after an early one.
  abbrev pub Meets : {A : Type 0} → (A → Run σ τ → Type 0) → Outcome σ τ A → Type 0
  Meets Q (returned a s) = Q a s
  Meets Q (failed e s) = F e s
  Meets Q panicked = false ≡ true

  abbrev pub Triple :
      {A : Type 0} → (Run σ τ → Type 0) → Action σ τ A → (A → Run σ τ → Type 0) → Type 0
  Triple P m Q = (s : Run σ τ) → P s → Meets Q (m s)

  abbrev pub Keeps : {A : Type 0} → (Run σ τ → Type 0) → Action σ τ A → Type 0
  Keeps P m = Triple P m (λ _. P)

  pub and_then-Meets :
      {A B : Type 0} (Q : A → Run σ τ → Type 0) (R : B → Run σ τ → Type 0) (o : Outcome σ τ A)
      (f : A → Action σ τ B)
      → Meets Q o
      → ((a : A) (s : Run σ τ) → Q a s → Meets R (f a s))
      → Meets R (and_then o f)
  and_then-Meets Q R (returned a s) f h k = k a s h
  and_then-Meets Q R (failed e s) f h k = h
  and_then-Meets Q R panicked f h k = h

  pub bind-Triple :
      {A B : Type 0} (P : Run σ τ → Type 0) (Q : A → Run σ τ → Type 0) (R : B → Run σ τ → Type 0)
      (m : Action σ τ A) (f : A → Action σ τ B)
      → Triple P m Q
      → ((a : A) → Triple (Q a) (f a) R)
      → Triple P (m >>= f) R
  bind-Triple P Q R m f h k s p = and_then-Meets Q R (m s) f (h s p) k

  -- The same where what holds stays the same.
  pub bind-Keeps :
      {A B : Type 0} (P : Run σ τ → Type 0) (m : Action σ τ A) (f : A → Action σ τ B)
      → Keeps P m
      → ((a : A) → Keeps P (f a))
      → Keeps P (m >>= f)
  bind-Keeps P m f h k s p = and_then-Meets (λ _. P) (λ _. P) (m s) f (h s p) k

  pub pure-Keeps : {A : Type 0} (P : Run σ τ → Type 0) (a : A) → Keeps P (pure a)
  pure-Keeps P a s h = h

  pub when-Keeps :
      (P : Run σ τ → Type 0) (b : Bool) (m : Action σ τ (Unit {0})) → Keeps P m → Keeps P (when b m)
  unfolding when
  when-Keeps P true m h = h
  when-Keeps P false m h = λ s p. p

  pub choose-Keeps :
      {A : Type 0} (P : Run σ τ → Type 0) (b : Bool) (m k : Action σ τ A)
      → Keeps P m
      → Keeps P k
      → Keeps P (choose b m k)
  choose-Keeps P true m k h g = h
  choose-Keeps P false m k h g = g

  lab_answer-Meets :
      {A : Type 0} (P : Run σ τ → Type 0) (s : Run σ τ) (a : Answer LabError A × σ)
      → ((l : σ) → P (record s { lab = l }))
      → ((e : LabError) (l : σ) → F (lab_error e) (record s { lab = l }))
      → Meets (λ _. P) (lab_answer s a)
  lab_answer-Meets P s (answered a, l) h k = h l
  lab_answer-Meets P s (refused e, l) h k = k e l

  pub call_lab-Triple :
      {A : Type 0} (P : Run σ τ → Type 0) (f : σ → Answer LabError A × σ)
      → ((s : Run σ τ) (l : σ) → P s → P (record s { lab = l }))
      → ((e : LabError) (s : Run σ τ) → P s → F (lab_error e) s)
      → Keeps P (call_lab f)
  unfolding call_lab
  call_lab-Triple P f stable lost s h =
      lab_answer-Meets P s (f s.lab) (λ l. stable s l h)
        (λ e l. lost e (record s { lab = l }) (stable s l h))

  journal_answer-Meets :
      (P : Run σ τ → Type 0) (s : Run σ τ) (a : Answer JournalError Text × τ)
      → ((j : τ) → P (record s { journal = j }))
      → ((e : JournalError) (j : τ) → F (journal_error e) (record s { journal = j }))
      → Meets (λ _. P) (journal_answer s a)
  journal_answer-Meets P s (answered a, j) h k = h j
  journal_answer-Meets P s (refused e, j) h k = k e j

  pub append-Triple :
      (journal : Journal τ) (P : Run σ τ → Type 0) (event : JournalEvent)
      → ((s : Run σ τ) (j : τ) → P s → P (record s { journal = j }))
      → ((e : JournalError) (s : Run σ τ) → P s → F (journal_error e) s)
      → Keeps P (append journal event)
  unfolding append
  append-Triple journal P event stable lost s h =
      journal_answer-Meets P s (journal.append event s.journal) (λ j. stable s j h)
        (λ e j. lost e (record s { journal = j }) (stable s j h))

-- Of less.
pub Meets-mono :
    {σ τ A : Type 0} (F G : ProveError → Run σ τ → Type 0) (Q R : A → Run σ τ → Type 0)
    (o : Outcome σ τ A)
    → ((a : A) (s : Run σ τ) → Q a s → R a s)
    → ((e : ProveError) (s : Run σ τ) → F e s → G e s)
    → Meets F Q o
    → Meets G R o
Meets-mono F G Q R (returned a s) k g h = k a s h
Meets-mono F G Q R (failed e s) k g h = g e s h
Meets-mono F G Q R panicked k g h = h

-- A legal step of the workflow does not panic.
module _ {σ τ : Type 0} (max : ℕ) (F : ProveError → Run σ τ → Type 0) where
  pub advance-Triple :
      (w next : AnalysisState) (n : ℕ)
      → allows w next ≡ true
      → Triple F (Tracks max w n) (advance next) (λ _. Tracks max next n)
  unfolding advance advance_checked Workflow.advance
  advance-Triple w next n a s h =
      let legal : allows s.workflow.state next ≡ true = ap (λ v. allows v next) h.0 ∙ a in
      rw legal (refl, h.1, h.2)

  pub count_trial-Triple :
      (w : AnalysisState) → max < 2 ^ 64 → Triple F (Left max w) count_trial (λ _. Tracks max w 1)
  unfolding count_trial
  count_trial-Triple w small s h = (h.0.0, omega (arith, h.0.1, h.1), omega (arith, h.1))

  pub push_trial-Triple :
      (w : AnalysisState) (t : TrialRecord)
      → Triple F (Tracks max w 1) (push_trial t) (λ _. Tracks max w 0)
  unfolding push_trial
  push_trial-Triple w t s h = (h.0, omega (arith, h.1, length-append s.trials (t ∷ [])), h.2)

-- The actions that touch neither the workflow nor the trials.
module _ {σ τ : Type 0} (max : ℕ) where
  pub call_lab-Keeps :
      {A : Type 0} (w : AnalysisState) (f : σ → Answer LabError A × σ)
      → Keeps (Spent {τ = τ} max) (Tracks max w 0) (call_lab f)
  call_lab-Keeps w f =
      call_lab-Triple (Spent max) (Tracks max w 0) f (λ s l h. h)
        (λ e s h. Tracks-Spent max w 0 (lab_error e) s h)

  pub append-Keeps :
      (journal : Journal τ) (w : AnalysisState) (event : JournalEvent)
      → Keeps (Spent {σ = σ} max) (Tracks max w 0) (append journal event)
  append-Keeps journal w event =
      append-Triple (Spent max) journal (Tracks max w 0) event (λ s j h. h)
        (λ e s h. Tracks-Spent max w 0 (journal_error e) s h)

  pub limit-Keeps :
      (w : AnalysisState) (detail : Text)
      → Keeps {σ = σ} {τ = τ} (Spent max) (Tracks max w 0) (limit detail)
  unfolding limit
  limit-Keeps w detail s h = h

  pub executed-Keeps :
      (w : AnalysisState) → Keeps {σ = σ} {τ = τ} (Spent max) (Tracks max w 0) executed
  unfolding executed
  executed-Keeps w s h = h

  pub capabilities-Keeps :
      (lab : Laboratory σ) (w : AnalysisState)
      → Keeps {τ = τ} (Spent max) (Tracks max w 0) (capabilities lab)
  unfolding capabilities
  capabilities-Keeps lab w s h = h

  pub journal_conclusions-Keeps :
      (journal : Journal τ) (w : AnalysisState) (raw : List CausalConclusion)
      → Keeps {σ = σ} (Spent max) (Tracks max w 0) (journal_conclusions journal raw)
  unfolding journal_conclusions push_conclusion
  journal_conclusions-Keeps journal w [] s h = h
  journal_conclusions-Keeps journal w (c ∷ raw) s h =
      and_then-Meets (Spent max) (λ _. Tracks max w 0) (λ _. Tracks max w 0) (append journal _ s) _
        (append-Keeps journal w _ s h) (λ a s' h'. journal_conclusions-Keeps journal w raw _ h')
