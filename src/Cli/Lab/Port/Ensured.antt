-- ===== src/Cli/Lab/Port/Ensured.antt =====
-- crates/ovid-cli/src/lab.rs: what an action of the laboratory ensures of its answer.
use ovid.Prelude.{◌≡◌, refl}
use ovid.Application.Ports.{LabError, Answer, answered, refused}
use ovid.Cli.Lab.{HostLaboratory}
use ovid.Cli.Lab.Port.{Machine, Action, pure, refuse, on_world, ◌>>=◌, given, laboratory, continue}

abbrev pub Answered : {A : Type 0} → (A → Type 0) → Answer LabError A → Type 0
Answered P (answered a) = P a
Answered P (refused e) = Unit

module _ {σ : Type 0} where
  -- Whatever an action answers.
  pub record Ensures {A : Type 0} (P : A → Type 0) (x : Action σ A) : Type 0 where
    pub holds : (m : Machine σ) → Answered P (x m).0

  pub bind-Ensures :
      {A B : Type 0} (Q : A → Type 0) (P : B → Type 0) (x : Action σ A) (f : A → Action σ B)
      → Ensures Q x
      → ((a : A) → Q a → Ensures P (f a))
      → Ensures P (x >>= f)
  unfolding ◌>>=◌
  bind-Ensures {A = A} Q P x f q next = record { holds = λ m. by_answer (x m) (q.holds m) }
    where
      by_answer : (r : Answer LabError A × Machine σ) → Answered Q r.0 → Answered P (continue f r).0
      by_answer (answered a, m) h = (next a h).holds m
      by_answer (refused e, m) h = tt

  any-Ensures : {A : Type 0} (x : Action σ A) → Ensures (λ _. Unit {0}) x
  any-Ensures {A = A} x = record { holds = λ m. by_answer (x m).0 }
    where
      by_answer : (r : Answer LabError A) → Answered (λ _. Unit {0}) r
      by_answer (answered a) = tt
      by_answer (refused e) = tt

  pub then-Ensures :
      {A B : Type 0} (P : B → Type 0) (x : Action σ A) (f : A → Action σ B)
      → ((a : A) → Ensures P (f a))
      → Ensures P (x >>= f)
  then-Ensures P x f next = bind-Ensures (λ _. Unit {0}) P x f (any-Ensures x) (λ a _. next a)

  pub given-Ensures :
      {A : Type 0} (Q : A → Type 0) (a : Answer LabError A) → Answered Q a → Ensures Q (given a)
  given-Ensures Q a h = record { holds = λ m. h }

  pub pure-Ensures : {A : Type 0} (P : A → Type 0) (a : A) → P a → Ensures P (pure a)
  unfolding pure
  pure-Ensures P a h = record { holds = λ m. h }

  -- What an effect answers, it answers in some state of the host.
  pub on_world-Ensures :
      {A : Type 0} (f : σ → Answer LabError A × σ)
      → Ensures (λ a. (w : σ) × ((f w).0 ≡ answered a)) (on_world f)
  on_world-Ensures {A = A} f = record { holds = λ m. by_answer m.world (f m.world).0 refl }
    where
      by_answer :
          (w : σ) (r : Answer LabError A)
          → (f w).0 ≡ r
          → Answered (λ a. (w : σ) × ((f w).0 ≡ answered a)) r
      by_answer w (answered a) q = (w, q)
      by_answer w (refused e) q = tt

  pub refuse-Ensures : {A : Type 0} (P : A → Type 0) (e : LabError) → Ensures P (refuse e)
  refuse-Ensures P e = record { holds = λ m. tt }

  -- An action that first reads the laboratory depends on it.
  pub laboratory-read :
      {B : Type 0} (f : HostLaboratory → Action σ B) (m : Machine σ)
      → (laboratory >>= f) m ≡ f m.lab m
  unfolding ◌>>=◌
  laboratory-read f m = refl
