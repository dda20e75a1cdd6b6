-- ===== src/Resolver/Accepted.antt =====
-- The resolver of an accepted configuration under the engine: the engine's own check of the
-- members never refuses what it resolves.
use version_aware_code_mcp.Prelude.{
  Text, List, [], ◌∷◌, map, some, false, ◌≡◌, inl, inr, refl, ap, ap₂, sym, subst, ◌∙◌, arith, All,
  In, Bool-cases, text_eq, text_eq_iff, is_blank,
}
use version_aware_code_mcp.Vacctx.{CodeContext, Workspace}
use version_aware_code_mcp.Effect.{Result, ok, err, pure, lift, continue, ◌>>=◌, ◌>>◌}
use version_aware_code_mcp.Config.{Config, Repository, lookup, filed, validate}
use version_aware_code_mcp.Config.Agreement.{IsServable}
use version_aware_code_mcp.Config.Validity.{validate_iff}
use version_aware_code_mcp.Engine
use version_aware_code_mcp.Engine.{Engine, require, check_member, check_members}
use version_aware_code_mcp.Engine.Scope.{IsComplete}
use version_aware_code_mcp.Resolver
use version_aware_code_mcp.Resolver.{Git, members_of, source}
use version_aware_code_mcp.Resolver.Resolution.{resolve-IsResolved}

pub lookup-In {ℓ} :
    {V : Type ℓ} (key : Text) (entries : List (Text × V)) (v : V)
    → lookup key entries ≡ some v
    → In (key, v) entries
unfolding lookup
lookup-In key [] v h = absurd (cc)
lookup-In key ((k, x) ∷ rest) v h = elim (Bool-cases (text_eq k key)) [
  | inl hit ↦
      let e : some x ≡ some v = rw hit at h in
      inl (ap₂ (λ a b. (a, b)) (sym ((text_eq_iff k key).0 hit)) (ground arith))
  | inr miss ↦ inr (lookup-In key rest v (rw miss at h))
]

IsComplete-check_members :
    (id : Text) (ms : List CodeContext) → All IsComplete ms → check_members id ms ≡ ok tt
unfolding check_members check_member require
IsComplete-check_members id [] h = refl
IsComplete-check_members id (m ∷ ms) h =
    rw (h.0.id, h.0.repository, h.0.branch, h.0.revision) (IsComplete-check_members id ms h.1)

IsServable-IsComplete :
    (id : Text) (repositories : List (Text × Repository)) (ms : List CodeContext)
    → is_blank id ≡ false
    → All (IsServable repositories) ms
    → All IsComplete (map (filed id) ms)
IsServable-IsComplete id repositories [] named h = tt
IsServable-IsComplete id repositories (m ∷ ms) named h = (
  record { id = named; repository = h.0.repository; branch = h.0.branch; revision = h.0.revision },
  IsServable-IsComplete id repositories ms named h.1,
)

module _ {W : Type 0} (g : Git W) (c : Config) where
  resolved_complete :
      (id : Text) (w u : W) (ws : Workspace)
      → validate c ≡ ok tt
      → Resolver.resolve g c id w ≡ (ok ws, u)
      → check_members id ws.members ≡ ok tt
  resolved_complete id w u ws valid h =
      let r = resolve-IsResolved g c id w u ws h in
      let served =
        ((validate_iff c).0 valid).served (id, r.configured)
          (lookup-In id c.contexts r.configured r.found) in
      subst (λ x. check_members id x.members ≡ ok tt) (sym r.filed)
        (IsComplete-check_members id (members_of r.configured id)
          (IsServable-IsComplete id c.repositories r.configured.members served.id served.servable))

  passes :
      (id : Text) (w : W) (r : Result Workspace × W)
      → Resolver.resolve g c id w ≡ r
      → ((ws : Workspace) (u : W) → r ≡ (ok ws, u) → check_members id ws.members ≡ ok tt)
      → continue r.0 r.1 (λ ws. lift (check_members id ws.members) >> pure ws) ≡ r
  passes id w (ok ws, u) e f = rw (f ws u refl) refl
  passes id w (err x, u) e f = refl

  -- Under a validated configuration the engine answers a context id exactly as the resolver does:
  -- its own check that every member is complete never refuses a workspace.
  pub engine_resolve-resolve :
      (e : Engine W) (id : Text) (w : W)
      → e.contexts ≡ source g c
      → validate c ≡ ok tt
      → Engine.resolve e id w ≡ Resolver.resolve g c id w
  unfolding Engine.resolve source
  engine_resolve-resolve e id w s valid =
      ap (λ x. (x.resolve id >>= λ ws. lift (check_members id ws.members) >> pure ws) w) s
      ∙ passes id w (Resolver.resolve g c id w) refl (λ ws u h. resolved_complete id w u ws valid h)
