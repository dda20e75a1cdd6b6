-- ===== src/Resolver.antt =====
-- resolver/resolver.go: a context id becomes the versions it names, each of them checked in its
-- repository; and the check that a working tree is on the declared revision. The `git` command and
-- the clock are parameters, as is `context.Context` with the budget `Resolve` puts on it.
pub mod Resolution
pub mod Accepted
pub mod Worktree
use version_aware_code_mcp.Prelude.{
  Text, List, [], ◌∷◌, ◌++◌, map, Option, none, some, Bool, true, false, codes, text_eq, trim_space,
}
use version_aware_code_mcp.Vacerr
use version_aware_code_mcp.Vacerr.{
  Failure, context_not_found, repository_not_found, revision_not_found, new_source_mismatch,
}
use version_aware_code_mcp.Vacctx.{CodeContext, Workspace}
use version_aware_code_mcp.Effect.{Result, ok, err, Effect, pure, fail, continue, ◌>>=◌, ◌>>◌}
use version_aware_code_mcp.Provider.{ContextSource}
use version_aware_code_mcp.Deadline.{Cause, ended, override}
use version_aware_code_mcp.Config.{Config, Repository, lookup, sorted, filed}

-- What `exec` gives: a `git -C <path> <args>` run with its output, and how the context ended.
pub record Git (W : Type 0) : Type 0 where
  pub run : Text → List Text → Effect W Text
  pub cause : W → Option Cause

-- `membersOf`
abbrev pub members_of : Workspace → Text → List CodeContext
members_of ws id = map (filed id) ws.members

unfoldable pub list_entries : List (Text × Workspace) → List Workspace
list_entries [] = []
list_entries ((id, ws) ∷ rest) = record { id = id; members = members_of ws id } ∷ list_entries rest

abbrev pub not_configured : Text → Failure
not_configured id = Vacerr.new context_not_found ((codes "context", Vacerr.text id) ∷ [])

abbrev pub no_repository : Text → CodeContext → Failure
no_repository id m =
    Vacerr.new repository_not_found
      ((codes "context", Vacerr.text id) ∷ (codes "repository", Vacerr.text m.repository) ∷ [])

abbrev pub cannot_read : Text → CodeContext → Text → Failure
cannot_read id m path = Vacerr.new repository_not_found (
    (codes "context", Vacerr.text id)
    ∷ (codes "repository", Vacerr.text m.repository)
    ∷ (codes "path", Vacerr.text path)
    ∷ [])

abbrev pub no_revision : Text → CodeContext → Text → Failure
no_revision id m path = Vacerr.new revision_not_found (
    (codes "context", Vacerr.text id)
    ∷ (codes "repository", Vacerr.text m.repository)
    ∷ (codes "revision", Vacerr.text m.revision)
    ∷ (codes "path", Vacerr.text path)
    ∷ [])

-- An error of an effect, handled.
abbrev pub handle :
    {W A B : Type 0} → Result A × W → (A → Effect W B) → (Failure → Effect W B) → Result B × W
handle (ok a, w) f g = f a w
handle (err x, w) f g = g x w

module _ {W : Type 0} (g : Git W) where
  abbrev pub git : Text → List Text → Effect W Text
  git path args = g.run path args >>= λ out. pure (trim_space out)

  abbrev pub rev_parse : Text → Text → Effect W Text
  rev_parse path rev = git path (
      codes "rev-parse"
      ∷ codes "--verify"
      ∷ codes "--end-of-options"
      ∷ (rev ++ codes "^{commit}")
      ∷ [])

  abbrev pub git_dir : Text → Effect W Text
  git_dir path = git path (codes "rev-parse" ∷ codes "--git-dir" ∷ [])

  -- A verdict behind a git command goes through `deadline.Override`.
  abbrev pub verdict : {A : Type 0} → Failure → Effect W A
  verdict f w = fail (override (g.cause w) f) w

  -- Which of two causes a failed `rev-parse` had, unless the time ran out.
  abbrev pub diagnose : Text → CodeContext → Text → Option Failure → Effect W (Unit {0})
  diagnose id m path (some late) w = fail late w
  diagnose id m path none w =
      handle (git_dir path w) (λ _. verdict (no_revision id m path))
        (λ _. verdict (cannot_read id m path))

  unfoldable pub check_revision : Text → CodeContext → Text → Effect W (Unit {0})
  check_revision id m path w =
      handle (rev_parse path m.revision w) (λ _. pure tt)
        (λ _ v. diagnose id m path (ended (g.cause v)) v)

  unfoldable pub check_repository : Text → CodeContext → Option Repository → Effect W (Unit {0})
  unfolding check_revision
  check_repository id m none = fail (no_repository id m)
  check_repository id m (some repo) = check_revision id m repo.path

  -- The loop over the members.
  unfoldable pub check_members :
      List (Text × Repository) → Text → List CodeContext → Effect W (Unit {0})
  unfolding check_repository
  check_members repositories id [] = pure tt
  check_members repositories id (m ∷ rest) =
      check_repository id m (lookup m.repository repositories) >> check_members repositories id rest

  unfoldable pub resolve_in :
      List (Text × Repository) → Text → Option Workspace → Effect W Workspace
  unfolding check_members
  resolve_in repositories id none = fail (not_configured id)
  resolve_in repositories id (some ws) =
      check_members repositories id (members_of ws id)
      >> pure (record { id = id; members = members_of ws id })

  unfoldable pub resolve : Config → Text → Effect W Workspace
  unfolding resolve_in
  resolve c id = resolve_in c.repositories id (lookup id c.contexts)

  unfoldable pub contexts : Config → Effect W (List Workspace)
  unfolding list_entries
  contexts c = pure (list_entries (sorted c.contexts))

  -- The resolver as the engine's source of contexts. It has nothing to close.
  unfoldable pub source : Config → ContextSource W
  source c = record { contexts = contexts c; resolve = resolve c; closer = none }

  abbrev pub cannot_compare : Text → CodeContext → Failure
  cannot_compare path m =
      Vacerr.new repository_not_found
        ((codes "context", Vacerr.text m.id) ∷ (codes "path", Vacerr.text path) ∷ [])

  abbrev pub lacks_revision : Text → CodeContext → Failure
  lacks_revision path m = Vacerr.new revision_not_found (
      (codes "context", Vacerr.text m.id)
      ∷ (codes "revision", Vacerr.text m.revision)
      ∷ (codes "path", Vacerr.text path)
      ∷ [])

  abbrev pub mismatch : Text → CodeContext → Text → Text → Failure
  mismatch path m declared actual = new_source_mismatch declared actual (
      (codes "context", Vacerr.text m.id)
      ∷ (codes "repository", Vacerr.text m.repository)
      ∷ (codes "path", Vacerr.text path)
      ∷ (codes "declared_ref", Vacerr.text m.revision)
      ∷ [])

  abbrev pub compare_commits : Text → CodeContext → Text → Text → Bool → Effect W (Unit {0})
  compare_commits path m declared actual true = pure tt
  compare_commits path m declared actual false = fail (mismatch path m declared actual)

  -- `VerifyWorktree`
  unfoldable pub verify_worktree : Text → CodeContext → Effect W (Unit {0})
  unfolding new_source_mismatch
  verify_worktree path m w =
      handle (rev_parse path m.revision w)
        (λ declared v.
          handle (rev_parse path (codes "HEAD") v)
            (λ actual. compare_commits path m declared actual (text_eq declared actual))
            (λ _. verdict (cannot_compare path m)))
        (λ _ v.
          handle (git_dir path v) (λ _. verdict (lacks_revision path m))
            (λ _. verdict (cannot_compare path m)))
