-- ===== src/Resolver/Resolution.antt =====
-- A resolved context has every member's revision in its repository.
use version_aware_code_mcp.Prelude.{
  Text, List, [], ◌∷◌, Option, none, some, ◌≡◌, ◌⊎◌, inl, inr, refl, ap, subst, ◌∙◌,
}
use version_aware_code_mcp.Vacctx.{CodeContext, Workspace}
use version_aware_code_mcp.Vacerr.{Failure}
use version_aware_code_mcp.Effect.{Result, ok, err, Effect, bind-eq-ok}
use version_aware_code_mcp.Deadline.{ended}
use version_aware_code_mcp.Config.{Config, Repository, lookup}
use version_aware_code_mcp.Engine.Scope.{pure-eq}
use version_aware_code_mcp.Resolver.{
  Git, members_of, handle, git_dir, rev_parse, diagnose, check_revision, check_repository,
  check_members, resolve_in, resolve,
}

-- An error that is handled: which branch was taken.
pub handle-cases :
    {W A B : Type 0} (r : Result A × W) (f : A → Effect W B) (k : Failure → Effect W B)
    {out : Result B × W}
    → handle r f k ≡ out
    → ((a : A) × (v : W) × (r ≡ (ok a, v)) × (f a v ≡ out))
      ⊎ ((x : Failure) × (v : W) × (r ≡ (err x, v)) × (k x v ≡ out))
handle-cases (ok a, v) f k h = inl (a, v, refl, h)
handle-cases (err x, v) f k h = inr (x, v, refl, h)

module _ {W : Type 0} (g : Git W) (repositories : List (Text × Repository)) where
  -- The member's repository is configured, and git named a commit for its revision there.
  pub record IsAvailable (m : CodeContext) (w u : W) : Type 0 where
    pub repository : Repository
    pub configured : lookup m.repository repositories ≡ some repository
    pub commit : Text
    pub parsed : rev_parse g repository.path m.revision w ≡ (ok commit, u)

  -- The members one after another, each available when it was its turn.
  pub data AllAvailable : List CodeContext → W → W → Type 0 where
    all : {w : W} → AllAvailable [] w w
    first :
        {m : CodeContext} {ms : List CodeContext} {w v u : W}
        → IsAvailable m w v
        → AllAvailable ms v u
        → AllAvailable (m ∷ ms) w u

  diagnose-fails :
      (id : Text) (m : CodeContext) (path : Text) (late : Option Failure) (w u : W)
      → diagnose g id m path late w ≡ (ok tt, u)
      → ⊥
  diagnose-fails id m path (some f) w u h = cc (ap (λ x. x.0) h)
  diagnose-fails id m path none w u h = elim (handle-cases (git_dir g path w) _ _ h) [
    | inl (a, v, e, k) ↦ cc (ap (λ x. x.0) k)
    | inr (x, v, e, k) ↦ cc (ap (λ x. x.0) k)
  ]

  check_repository-IsAvailable :
      (id : Text) (m : CodeContext) (o : Option Repository) (w u : W)
      → lookup m.repository repositories ≡ o
      → check_repository g id m o w ≡ (ok tt, u)
      → IsAvailable m w u
  unfolding check_repository check_revision
  check_repository-IsAvailable id m none w u e h = absurd (cc (ap (λ x. x.0) h))
  check_repository-IsAvailable id m (some repo) w u e h =
      elim (handle-cases (rev_parse g repo.path m.revision w) _ _ h) [
        | inl (commit, v, parsed, k) ↦ record {
          repository = repo;
          configured = e;
          commit = commit;
          parsed = parsed ∙ ap (λ x. (ok commit, x.1)) k;
        }
        | inr (x, v, _, k) ↦ absurd (diagnose-fails id m repo.path (ended (g.cause v)) v u k)
      ]

  pub check_members-AllAvailable :
      (id : Text) (ms : List CodeContext) (w u : W)
      → check_members g repositories id ms w ≡ (ok tt, u)
      → AllAvailable ms w u
  unfolding check_members
  check_members-AllAvailable id [] w u h = subst (λ x. AllAvailable [] w x) (ap (λ x. x.1) h) all
  check_members-AllAvailable id (m ∷ ms) w u h =
      let (_, v, checked, rest) =
        bind-eq-ok (check_repository g id m (lookup m.repository repositories)) _ w h in
      first (check_repository-IsAvailable id m (lookup m.repository repositories) w v refl checked)
        (check_members-AllAvailable id ms v u rest)

module _ {W : Type 0} (g : Git W) (c : Config) where
  -- What a resolved context is: the configured one, filed under the id that was asked for, with
  -- each member's revision found in its repository.
  pub record IsResolved (id : Text) (w u : W) (ws : Workspace) : Type 0 where
    pub configured : Workspace
    pub found : lookup id c.contexts ≡ some configured
    pub filed : ws ≡ record { id = id; members = members_of configured id }
    pub available : AllAvailable g c.repositories ws.members w u

  resolve_in-IsResolved :
      (id : Text) (w u : W) (ws : Workspace) (o : Option Workspace)
      → lookup id c.contexts ≡ o
      → resolve_in g c.repositories id o w ≡ (ok ws, u)
      → IsResolved id w u ws
  unfolding resolve_in
  resolve_in-IsResolved id w u ws none e h = absurd (cc (ap (λ x. x.0) h))
  resolve_in-IsResolved id w u ws (some configured) e h =
      let (_, v, checked, last) =
        bind-eq-ok (check_members g c.repositories id (members_of configured id)) _ w h in
      pure-eq (λ x y. IsResolved id w y x) last
        (record {
          configured = configured;
          found = e;
          filed = refl;
          available =
              check_members-AllAvailable g c.repositories id (members_of configured id) w v checked;
        })

  -- A context that resolves is the one configured under exactly the id that was asked for; its
  -- members are all of the configured ones in their order, filed under that id, and git has named
  -- a commit for each one's revision in its own configured repository.
  pub resolve-IsResolved :
      (id : Text) (w u : W) (ws : Workspace) → resolve g c id w ≡ (ok ws, u) → IsResolved id w u ws
  unfolding resolve
  resolve-IsResolved id w u ws h = resolve_in-IsResolved id w u ws (lookup id c.contexts) refl h
