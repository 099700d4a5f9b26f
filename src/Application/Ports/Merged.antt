-- ===== src/Application/Ports/Merged.antt =====
-- crates/ovid-application/src/ports.rs: what an entry of the merged observations says of the trials.
use mathlib.Core.Option.{some-injective}
use ovid.Prelude.{
  ℕ, ◌+◌, ◌%◌, ◌^◌, ◌≡◌, refl, sym, subst, ◌∙◌, Option, none, some, List, [], ◌∷◌, Text, arith, all,
  any, In, keep_if, text_eq,
}
use ovid.Prelude.Order.{
  upsert, values, text_order, folded, folded_all, upsert_all, upsert_all-In, upsert_all-Has,
}
use ovid.Domain.Dependency.{DependencyKey, key_eq, key_order, key_beq}
use ovid.Application.Ports.{
  TrialObservations, NetworkCandidate, ExecutableCandidate, merge_network, merge_networks,
  merge_candidates, network_of, merge_executable, merge_tools, merge_executables, executables_of,
  or_else,
}

-- The observations of one dependency, in the order of the trials.
abbrev pub of_key : DependencyKey → List TrialObservations → List NetworkCandidate
of_key k trials = keep_if (λ c. key_beq c.key k) (network_of trials)

abbrev pub of_name : Text → List TrialObservations → List ExecutableCandidate
of_name n trials = keep_if (λ c. text_eq.beq c.name n) (executables_of trials)

abbrev pub sum : (NetworkCandidate → ℕ) → List NetworkCandidate → ℕ
sum f [] = 0
sum f (c ∷ cs) = f c + sum f cs

merge_networks-upsert_all :
    (m : List (DependencyKey × NetworkCandidate)) (cs : List NetworkCandidate)
    → merge_networks m cs ≡ upsert_all (λ c. c.key) (λ c. c) merge_network m cs
unfolding merge_networks
merge_networks-upsert_all m [] = refl
merge_networks-upsert_all m (c ∷ cs) =
    merge_networks-upsert_all (upsert c.key (merge_network c) c m) cs

merge_tools-upsert_all :
    (m : List (Text × ExecutableCandidate)) (cs : List ExecutableCandidate)
    → merge_tools m cs ≡ upsert_all (λ c. c.name) (λ c. c) merge_executable m cs
unfolding merge_tools
merge_tools-upsert_all m [] = refl
merge_tools-upsert_all m (c ∷ cs) =
    merge_tools-upsert_all (upsert c.name (merge_executable c) c m) cs

-- What is folded of a group, its first entry included.
abbrev pub Summed : List NetworkCandidate → NetworkCandidate → Type 0
Summed cs v =
    (v.all_failed ≡ all (λ c. c.all_failed) cs)
    × (v.enforced_unavailable ≡ all (λ c. c.enforced_unavailable) cs)
    × (v.externally_controlled ≡ any (λ c. c.externally_controlled) cs)
    × (v.attempts % 2 ^ 64 ≡ sum (λ c. c.attempts) cs % 2 ^ 64)
    × (v.failures % 2 ^ 64 ≡ sum (λ c. c.failures) cs % 2 ^ 64)

folded-Summed :
    (v : NetworkCandidate) (cs : List NetworkCandidate)
    → Summed (v ∷ cs) (folded merge_network v cs)
unfolding merge_network
folded-Summed v [] = (ground arith, ground arith, ground arith, ground arith, ground arith)
folded-Summed v (c ∷ cs) =
    let h = folded-Summed (merge_network c v) cs in
    (
      ground (arith, h.0),
      ground (arith, h.1),
      ground (arith, h.2),
      omega (arith, h.3),
      omega (arith, h.4),
    )

folded_all-Summed :
    (cs : List NetworkCandidate) (v : NetworkCandidate)
    → folded_all (λ c. c) merge_network none cs ≡ some v
    → Summed cs v
folded_all-Summed [] v q = absurd (cc)
folded_all-Summed (c ∷ cs) v q =
    subst (Summed (c ∷ cs)) (some-injective (folded merge_network c cs) v q) (folded-Summed c cs)

-- An entry of the merged candidates has failed everywhere only if every trial's observation of its
-- dependency has, is refused by enforcement only if every one is, is external if one is, and
-- counts the attempts and the failures of all, on 64 bits.
pub merge_candidates-Summed :
    (trials : List TrialObservations) (v : NetworkCandidate)
    → In v (merge_candidates trials)
    → Summed (of_key v.key trials) v
unfolding merge_candidates merge_network
merge_candidates-Summed trials v i = folded_all-Summed (of_key v.key trials) v (
    upsert_all-In (λ c. c.key) (λ c. c) merge_network (λ c. c.key) (λ c. refl) (λ c x. refl)
      (network_of trials)
      (subst (λ m. In v (values m)) (merge_networks-upsert_all [] (network_of trials)) i))

-- Every observed dependency has an entry among the merged candidates.
merge_candidates-Has :
    (trials : List TrialObservations) (c : NetworkCandidate)
    → In c (network_of trials)
    → (v : NetworkCandidate) × In v (merge_candidates trials) × (v.key ≡ c.key)
unfolding merge_candidates merge_network
merge_candidates-Has trials c i =
    subst (λ m. (v : NetworkCandidate) × In v (values m) × (v.key ≡ c.key))
      (sym (merge_networks-upsert_all [] (network_of trials)))
      (upsert_all-Has (λ c. c.key) (λ c. c) merge_network (λ c. c.key) (λ c. refl) (λ c x. refl)
        (network_of trials) i)

abbrev pub hints : List ExecutableCandidate → Option Text
hints [] = none
hints (c ∷ cs) = or_else c.resolver_hint (hints cs)

abbrev pub Resolved : List ExecutableCandidate → ExecutableCandidate → Type 0
Resolved cs v = (v.found ≡ any (λ c. c.found) cs) × (v.resolver_hint ≡ hints cs)

or_else_assoc : (x y z : Option Text) → or_else (or_else x y) z ≡ or_else x (or_else y z)
or_else_assoc none y z = refl
or_else_assoc (some x) y z = refl

or_else-none : (x : Option Text) → x ≡ or_else x none
or_else-none none = refl
or_else-none (some x) = refl

folded-Resolved :
    (v : ExecutableCandidate) (cs : List ExecutableCandidate)
    → Resolved (v ∷ cs) (folded merge_executable v cs)
unfolding merge_executable
folded-Resolved v [] = (ground arith, or_else-none v.resolver_hint)
folded-Resolved v (c ∷ cs) =
    let h = folded-Resolved (merge_executable c v) cs in
    (ground (arith, h.0), h.1 ∙ or_else_assoc v.resolver_hint c.resolver_hint (hints cs))

folded_all-Resolved :
    (cs : List ExecutableCandidate) (v : ExecutableCandidate)
    → folded_all (λ c. c) merge_executable none cs ≡ some v
    → Resolved cs v
folded_all-Resolved [] v q = absurd (cc)
folded_all-Resolved (c ∷ cs) v q =
    subst (Resolved (c ∷ cs)) (some-injective (folded merge_executable c cs) v q)
      (folded-Resolved c cs)

-- A merged executable is found if one trial found it, and its hint is the first that a trial has.
merge_executables-Resolved :
    (trials : List TrialObservations) (v : ExecutableCandidate)
    → In v (merge_executables trials)
    → Resolved (of_name v.name trials) v
unfolding merge_executables merge_executable
merge_executables-Resolved trials v i = folded_all-Resolved (of_name v.name trials) v (
    upsert_all-In (λ c. c.name) (λ c. c) merge_executable (λ c. c.name) (λ c. refl) (λ c x. refl)
      (executables_of trials)
      (subst (λ m. In v (values m)) (merge_tools-upsert_all [] (executables_of trials)) i))
