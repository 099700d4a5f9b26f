-- ===== src/Cli/Lab/Port/Planned.antt =====
-- crates/ovid-cli/src/lab.rs: what the match of `run_trial` answers, and when it refuses.
use ovid.Prelude.{
  ◌≡◌, refl, sym, ap, ◌∙◌, Bool, true, false, not, ◌&&◌, ◌||◌, Option, none, some, List, [], ◌∷◌,
  Text, lit, is_some, arith, if◌then◌else◌,
}
use ovid.Domain.Trial.{Treatment, unchanged, deny_all_egress, block_dependency, hide_executable}
use ovid.Application.Ports.{LabError, Answer, answered, refused, can_enforce}
use ovid.Cli.Lab.{Host}
use ovid.Cli.Lab.Plans.{Plan, posture, base_for, capabilities, hiding, untreated, denying, blocking}
use ovid.Cli.Lab.Shims.{Shim, build_shim, shim_in}
use ovid.Cli.Lab.Shims.Links.{resolve}
use ovid.Cli.Lab.Shims.Shadowed.{directories, is_answered, build_shim-answers}
use ovid.Cli.Lab.Port.{Effects, Machine, Action, pure, ◌>>=◌, continue}
use ovid.Cli.Lab.Port.Running.{
  search_dirs, keep_shim, make_shim, build_shim_path, shadow, plan_trial,
}

abbrev pub is_block : Treatment → Bool
is_block (block_dependency dependency) = true
is_block _ = false

-- An executable that is to be hidden is in some directory of the search path.
abbrev pub is_found : Host → Treatment → Bool
is_found h (hide_executable name) = is_some (resolve name (directories h.search_path))
is_found h _ = true

-- A plan, and the shadow directory with the environment that leads to it.
abbrev pub Planned : Type 0
Planned = Plan × Option Text × List (Text × Text)

module _ {σ : Type 0} (fx : Effects σ) where
  -- Whether a shim is kept is what its check answers.
  keep_shim-answers :
      (dir : Text) (s : Answer LabError Shim) (m : Machine σ)
      → is_answered (keep_shim fx dir s m).0 ≡ is_answered s
  unfolding ◌>>=◌ pure
  keep_shim-answers dir (answered s) m = refl
  keep_shim-answers dir (refused e) m = refl

  -- The host makes every shadow directory that it is asked for.
  abbrev pub Links : Type 0
  Links =
      (dir : Text) (links : List (Text × Text)) (w : σ)
      → is_answered (fx.link_tree dir links w).0 ≡ true

  continue-answers :
      {A B : Type 0} (f : A → Action σ B) (r : Answer LabError A × Machine σ) (b : Bool)
      → is_answered r.0 ≡ true
      → ((a : A) (m : Machine σ) → is_answered (f a m).0 ≡ b)
      → is_answered (continue f r).0 ≡ b
  continue-answers f (answered a, m) b h next = next a m
  continue-answers f (refused e, m) b h next = absurd (cc)

  make_shim-answers :
      (h : Host) (hidden : Text) (dirs : List (Text × List Text)) (m : Machine σ)
      → Links
      → is_answered (make_shim fx h hidden dirs m).0 ≡ is_answered (build_shim h hidden)
  unfolding make_shim ◌>>=◌
  make_shim-answers h hidden dirs m links =
      continue-answers _ _ (is_answered (build_shim h hidden)) (links _ _ m.world)
        (λ _. keep_shim-answers _ (build_shim h hidden))

  build_shim_path-answers :
      (h : Host) (hidden : Text) (m : Machine σ)
      → Links
      → is_answered (build_shim_path fx h hidden m).0 ≡ is_answered (build_shim h hidden)
  unfolding build_shim_path build_shim search_dirs shim_in ◌>>=◌
  build_shim_path-answers h hidden m links = by_path h.search_path refl
    where
      by_path :
          (o : Option (List (Text × List Text)))
          → h.search_path ≡ o
          → is_answered (continue (make_shim fx h hidden) (search_dirs o, m)).0
            ≡ is_answered (build_shim h hidden)
      by_path none e = ap (λ p. is_answered (shim_in hidden p)) (sym e)
      by_path (some dirs) e = make_shim-answers h hidden dirs m links

  abbrev shown_at : Text → Action σ (Option Text × List (Text × Text))
  shown_at dir = pure (some dir, (lit "PATH", dir) ∷ [])

  abbrev with_shim : Plan → Option Text × List (Text × Text) → Action σ Planned
  with_shim plan shim = pure (plan, shim.0, shim.1)

  abbrev shadowed : Host → Plan → Action σ Planned
  shadowed h plan = shadow fx h plan.hides >>= with_shim plan

  shadow-answers :
      (h : Host) (name : Text) (m : Machine σ)
      → Links
      → is_answered (shadow fx h (some name) m).0 ≡ is_found h (hide_executable name)
  unfolding shadow ◌>>=◌ pure
  shadow-answers h name m links =
      by_answer (build_shim_path fx h name m)
      ∙ (build_shim_path-answers h name m links ∙ build_shim-answers h name)
    where
      by_answer :
          (r : Answer LabError Text × Machine σ)
          → is_answered (continue shown_at r).0 ≡ is_answered r.0
      by_answer (answered dir, m) = refl
      by_answer (refused e, m) = refl

  -- After the posture, whether the shim is there.
  rest-answers :
      (h : Host) (p : Plan) (m : Machine σ)
      → is_answered (continue (shadowed h) (answered p, m)).0
        ≡ is_answered (shadow fx h p.hides m).0
  unfolding ◌>>=◌ pure
  rest-answers h p m = by_answer (shadow fx h p.hides m)
    where
      by_answer :
          (r : Answer LabError (Option Text × List (Text × Text)) × Machine σ)
          → is_answered (continue (with_shim p) r).0 ≡ is_answered r.0
      by_answer (answered shim, m) = refl
      by_answer (refused e, m) = refl

  guarded :
      (h : Host) (e : LabError) (p : Plan) (b : Bool) (m : Machine σ)
      → is_answered (continue (shadowed h) (if not b then refused e else answered p, m)).0
        ≡ (b && is_answered (shadow fx h p.hides m).0)
  guarded h e p true m = rest-answers h p m
  guarded h e p false m = refl

  -- Where the host makes every shadow directory that it is asked for, the process laboratory answers
  -- a treatment under two conditions and refuses it otherwise: its capabilities enforce it or it
  -- blocks one dependency, and the executable that it hides, if any, is in some directory of the
  -- search path.
  pub plan_trial-answers :
      (h : Host) (t : Treatment) (m : Machine σ)
      → Links
      → is_answered (plan_trial fx h t m).0
        ≡ ((can_enforce (capabilities h m.lab) t || is_block t) && is_found h t)
  unfolding plan_trial posture can_enforce untreated hiding denying blocking shadow ◌>>=◌ pure
  plan_trial-answers h unchanged m links =
      rest-answers h (untreated (base_for m.lab.egress h m.lab)) m
  plan_trial-answers h deny_all_egress m links =
      guarded h _ (denying m.lab) (capabilities h m.lab).denies_all_egress m ∙ ground (arith)
  plan_trial-answers h (hide_executable name) m links =
      guarded h _ (hiding name (base_for m.lab.egress h m.lab))
        (capabilities h m.lab).executable_hiding m
      ∙ (ap (λ b. (capabilities h m.lab).executable_hiding && b) (shadow-answers h name m links)
          ∙ ground (arith))
  plan_trial-answers h (block_dependency dependency) m links =
      rest-answers h (blocking m.lab dependency) m ∙ ground (arith)
