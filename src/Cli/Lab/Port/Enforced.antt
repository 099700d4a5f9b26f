-- ===== src/Cli/Lab/Port/Enforced.antt =====
-- crates/ovid-cli/src/lab.rs: what a trial that the match of `run_trial` answers enforces.
use ovid.Prelude.{◌≡◌, refl, ap, subst, ◌∙◌, Option, none, some, List, [], ◌∷◌, Text, lit}
use ovid.Domain.Trial.{Treatment, unchanged, deny_all_egress, block_dependency, hide_executable}
use ovid.Application.Ports.{LabError, Answer, answered, refused}
use ovid.Cli.Lab.{Host, HostLaboratory}
use ovid.Cli.Lab.Plans.{Plan, posture}
use ovid.Cli.Lab.Shims.{Shim, no_links, link_dirs, build_shim}
use ovid.Cli.Lab.Shims.Shadowed.{build_shim-same}
use ovid.Cli.Lab.Port.{Effects, Machine, ◌>>=◌, given}
use ovid.Cli.Lab.Port.Ensured.{
  Answered, Ensures, bind-Ensures, then-Ensures, given-Ensures, pure-Ensures, on_world-Ensures,
  refuse-Ensures,
}
use ovid.Cli.Lab.Port.Honest.{Promises, Enforces, posture-Promises}
use ovid.Cli.Lab.Port.Planned.{Planned}
use ovid.Cli.Lab.Port.Running.{
  search_dirs, keep_shim, make_shim, build_shim_path, shadow, plan_trial,
}

-- The executable that a treatment hides.
abbrev pub hidden_by : Treatment → Option Text
hidden_by (hide_executable name) = some name
hidden_by _ = none

hides-hidden_by :
    (l : HostLaboratory) (t : Treatment) (p : Plan) → Enforces l t p → p.hides ≡ hidden_by t
hides-hidden_by l unchanged p h = h.1
hides-hidden_by l deny_all_egress p h = h.2
hides-hidden_by l (block_dependency d) p h = h.1
hides-hidden_by l (hide_executable name) p h = h.2

module _ {σ : Type 0} (fx : Effects σ) where
  -- A directory in which the host has made the links of the shim of an executable.
  abbrev pub IsShim : Host → Text → Text → Type 0
  IsShim h name dir =
      (s : Shim) × (build_shim h name ≡ answered s)
      × ((w : σ) × ((fx.link_tree dir s.links w).0 ≡ answered tt))

  -- Where an executable is hidden the search path is such a directory, else none is made.
  abbrev pub Shadows : Host → Option Text → Option Text × List (Text × Text) → Type 0
  Shadows h none r = (r.0 ≡ none) × (r.1 ≡ [])
  Shadows h (some name) r =
      (dir : Text) × IsShim h name dir × (r.0 ≡ some dir) × (r.1 ≡ (lit "PATH", dir) ∷ [])

  search_dirs-Answered :
      (o : Option (List (Text × List Text))) → Answered (λ dirs. o ≡ some dirs) (search_dirs o)
  unfolding search_dirs
  search_dirs-Answered none = tt
  search_dirs-Answered (some dirs) = refl

  keep_shim-Ensures :
      (h : Host) (name dir : Text) (dirs : List (Text × List Text)) (r : Answer LabError Shim)
      → h.search_path ≡ some dirs
      → ((w : σ) × ((fx.link_tree dir (link_dirs name no_links dirs).links w).0 ≡ answered tt))
      → build_shim h name ≡ r
      → Ensures (IsShim h name) (keep_shim fx dir r)
  keep_shim-Ensures h name dir dirs (answered s) p (w, q) e = pure-Ensures (IsShim h name) dir (
    s,
    e,
    (w, ap (λ (t : Shim). (fx.link_tree dir t.links w).0) (build_shim-same h name p e) ∙ q),
  )
  keep_shim-Ensures h name dir dirs (refused x) p q e =
      then-Ensures (IsShim h name) _ _ (λ _. refuse-Ensures (IsShim h name) x)

  build_shim_path-Ensures :
      (h : Host) (name : Text) → Ensures (IsShim h name) (build_shim_path fx h name)
  unfolding build_shim_path make_shim
  build_shim_path-Ensures h name =
      let P = IsShim h name in
      bind-Ensures (λ dirs. h.search_path ≡ some dirs) P _ _
        (given-Ensures _ _ (search_dirs-Answered h.search_path))
        (λ dirs p. then-Ensures P _ _ (λ n. then-Ensures P _ _ (λ l.
          bind-Ensures _ P _ _ (on_world-Ensures _)
            (λ _ q. keep_shim-Ensures h name _ dirs (build_shim h name) p q refl))))

  shadow-Ensures : (h : Host) (o : Option Text) → Ensures (Shadows h o) (shadow fx h o)
  unfolding shadow
  shadow-Ensures h none = pure-Ensures (Shadows h none) _ (refl, refl)
  shadow-Ensures h (some name) =
      bind-Ensures (IsShim h name) (Shadows h (some name)) _ _ (build_shim_path-Ensures h name)
        (λ dir s. pure-Ensures (Shadows h (some name)) _ (dir, s, refl, refl))

  abbrev pub AreKept : Host → HostLaboratory → Treatment → Planned → Type 0
  AreKept h l t p = Promises l t p.0 × Shadows h (hidden_by t) (p.1, p.2)

  pub planned :
      (h : Host) (l : HostLaboratory) (t : Treatment) (m : Machine σ)
      → Answered (AreKept h l t) (plan_trial fx h t (record m { lab = l })).0
  unfolding plan_trial ◌>>=◌
  planned h l t m =
      (bind-Ensures (Promises l t) (AreKept h l t) (given (posture h l t)) _
          (given-Ensures _ _ (posture-Promises h l t))
          (λ p q.
            bind-Ensures (Shadows h p.hides) (AreKept h l t) (shadow fx h p.hides) _
              (shadow-Ensures h p.hides)
              (λ r s.
                pure-Ensures (AreKept h l t) (p, r.0, r.1)
                  (q, subst (λ o. Shadows h o r) (hides-hidden_by l t p q.enforces) s)))).holds
        (record m { lab = l })

  pub plan_trial-AreKept :
      (h : Host) (t : Treatment) (m : Machine σ) {p : Planned}
      → (plan_trial fx h t m).0 ≡ answered p
      → AreKept h m.lab t p
  plan_trial-AreKept h t m q = subst (Answered (AreKept h m.lab t)) q (planned h m.lab t m)
