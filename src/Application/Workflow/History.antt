-- ===== src/Application/Workflow/History.antt =====
-- crates/ovid-application/src/workflow.rs: what a history can hold, over every series of calls.
use ovid.Prelude.{
  ℕ, suc, ◌≤◌, ◌<◌, ◌≡◌, refl, sym, ap, ◌∙◌, ◌⊎◌, inl, inr, true, false, none, some, List, [], ◌∷◌,
  ◌++◌, arith, length, length-append, In, here, there, In-append, In-append_left, In-append_right,
  Bool-cases, subst,
}
use ovid.Application.Workflow.{
  AnalysisState, created, source_resolved, inspected, environment_prepared, provisioned,
  baseline_validated, candidates_observed, experiments_completed, world_synthesized,
  replay_verified, replay_failed, replay_unavailable, finalized, allows, Workflow, new, advance,
  advance_checked, advance_all,
}

-- A history that starts at `created`, follows the edges of the machine, and ends at the state.
pub data IsLegal : List AnalysisState → AnalysisState → Type 0 where
  start : {h : List AnalysisState} → h ≡ created ∷ [] → IsLegal h created
  step :
      {h h' : List AnalysisState} {s n : AnalysisState}
      → IsLegal h s
      → allows s n ≡ true
      → h' ≡ h ++ (n ∷ [])
      → IsLegal h' n

advance-IsLegal :
    (w : Workflow) (n : AnalysisState)
    → IsLegal w.history w.state
    → IsLegal (advance w n).history (advance w n).state
unfolding advance
advance-IsLegal w n h = elim (Bool-cases (allows w.state n)) [
  | inl t ↦ rw t (step h t refl)
  | inr f ↦ rw f h
]

advance_all-IsLegal :
    (w : Workflow) (ns : List AnalysisState)
    → IsLegal w.history w.state
    → IsLegal (advance_all w ns).history (advance_all w ns).state
unfolding advance_all
advance_all-IsLegal w [] h = h
advance_all-IsLegal w (n ∷ ns) h = advance_all-IsLegal (advance w n) ns (advance-IsLegal w n h)

-- Whatever series of states the use case asks for, the history starts at `created`, follows only
-- the edges of the state machine, and ends at the current state.
pub history-IsLegal :
    (ns : List AnalysisState) → IsLegal (advance_all new ns).history (advance_all new ns).state
unfolding new
history-IsLegal ns = advance_all-IsLegal new ns (start refl)

-- The debug and the release build agree: where the debug build does not panic both give one
-- workflow, and where it panics the release build keeps the workflow as it was.
pub advance_checked-advance :
    (w : Workflow) (n : AnalysisState)
    → (advance_checked w n ≡ some (advance w n))
      ⊎ ((advance_checked w n ≡ none) × (advance w n ≡ w))
unfolding advance_checked
advance_checked-advance w n = elim (Bool-cases (allows w.state n)) [
  | inl t ↦ inl (rw t refl)
  | inr f ↦ inr (rw f refl, rw f refl)
]

-- The states that come before.
abbrev depth : AnalysisState → ℕ
depth created = 0
depth source_resolved = 1
depth inspected = 2
depth environment_prepared = 3
depth provisioned = 4
depth baseline_validated = 5
depth candidates_observed = 6
depth experiments_completed = 7
depth world_synthesized = 8
depth replay_verified = 9
depth replay_failed = 9
depth replay_unavailable = 9
depth finalized = 10

allows-depth : (s n : AnalysisState) → allows s n ≡ true → depth s < depth n
unfolding allows
allows-depth s n h = ground arith

IsLegal-length :
    {h : List AnalysisState} {s : AnalysisState} → IsLegal h s → length h ≤ suc (depth s)
IsLegal-length (start e) = omega (arith, ap length e)
IsLegal-length (step {h = h} {s = s} {n = n} l a e) =
    omega (arith, ap length e, length-append h (n ∷ []), IsLegal-length l, allows-depth s n a)

depth-le : (s : AnalysisState) → depth s ≤ 10
depth-le s = ground arith

-- The machine has no cycle: no series of calls makes a history of more than eleven states.
history-length : (ns : List AnalysisState) → length (advance_all new ns).history ≤ 11
history-length ns =
    omega (arith, IsLegal-length (history-IsLegal ns), depth-le (advance_all new ns).state)

allows-finalized : (n : AnalysisState) → allows finalized n ≡ false
unfolding allows
allows-finalized n = ground arith

stays : (w : Workflow) (n : AnalysisState) → w.state ≡ finalized → advance w n ≡ w
unfolding advance
stays w n e = rw (ap (λ s. allows s n) e ∙ allows-finalized n) refl

-- `finalized` is absorbing: no further call changes the workflow.
pub finalized-absorbs :
    (w : Workflow) (ns : List AnalysisState) → w.state ≡ finalized → advance_all w ns ≡ w
unfolding advance_all
finalized-absorbs w [] e = refl
finalized-absorbs w (n ∷ ns) e = ap (λ v. advance_all v ns) (stays w n e) ∙ finalized-absorbs w ns e

-- A state whose depth is below this stands before `s` in every history.
abbrev needed : AnalysisState → ℕ
needed finalized = 6
needed s = depth s

-- An edge adds at most the state that it leaves.
needed-allows :
    (s n b : AnalysisState)
    → allows s n ≡ true
    → depth b < needed n
    → (b ≡ s) ⊎ (depth b < needed s)
unfolding allows
needed-allows s n b h k = ground arith

IsLegal-last : {h : List AnalysisState} {s : AnalysisState} → IsLegal h s → In s h
IsLegal-last (start e) = subst (In created) (sym e) (here refl)
IsLegal-last (step {h = h} l a e) = subst (In _) (sym e) (In-append_right h (here refl))

IsLegal-needed :
    {h : List AnalysisState} {s : AnalysisState} (n b : AnalysisState)
    → IsLegal h s
    → depth b < needed n
    → In n h
    → In b h
IsLegal-needed n b (start e) k m = absurd (initial (subst (In n) e m))
  where
    initial : ¬ In n (created ∷ [])
    initial (here p) = let q = subst (λ x. depth b < needed x) p k in omega arith
    initial (there q) = elim q [ ]
IsLegal-needed n b (step {h = h} {s = s} {n = last} l a e) k m = subst (In b) (sym e) (
    In-append h (subst (In n) e m) (λ i. In-append_left (last ∷ []) (IsLegal-needed n b l k i))
      (λ i. In-append_left (last ∷ []) (added i (IsLegal-needed s b l))))
  where
    added : In n (last ∷ []) → (depth b < needed s → In s h → In b h) → In b h
    added (there q) ih = elim q [ ]
    added (here p) ih = elim (needed-allows s last b a (subst (λ x. depth b < needed x) p k)) [
      | inl q ↦ subst (λ x. In x h) (sym q) (IsLegal-last l)
      | inr q ↦ ih q (IsLegal-last l)
    ]

-- A replay is verified only after the whole chain: every history with `replay_verified` also has
-- the synthesized world, the completed experiments, the observed candidates and the validated
-- baseline, and the three states of preparation.
pub replay_verified-needs :
    (ns : List AnalysisState)
    → In replay_verified (advance_all new ns).history
    → In world_synthesized (advance_all new ns).history
      × In experiments_completed (advance_all new ns).history
      × In candidates_observed (advance_all new ns).history
      × In baseline_validated (advance_all new ns).history
      × In provisioned (advance_all new ns).history
      × In environment_prepared (advance_all new ns).history
      × In inspected (advance_all new ns).history
replay_verified-needs ns m =
    let all_of = λ (b : AnalysisState) (k : depth b < 9).
      IsLegal-needed replay_verified b (history-IsLegal ns) k m in
    (
      all_of world_synthesized (omega arith),
      all_of experiments_completed (omega arith),
      all_of candidates_observed (omega arith),
      all_of baseline_validated (omega arith),
      all_of provisioned (omega arith),
      all_of environment_prepared (omega arith),
      all_of inspected (omega arith),
    )
