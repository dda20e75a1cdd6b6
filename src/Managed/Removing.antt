-- ===== src/Managed/Removing.antt =====
-- Remove and Retry of managed/context.go: what a context owns is taken apart, or thrown away and built
-- again.
pub mod Removed
pub mod Retried
use version_aware_code_mcp.Prelude.{
  ℕ, Text, List, [], ◌∷◌, ◌++◌, map, Option, none, some, Bool, true, false, ◌||◌, if◌then◌else◌,
  codes, text_eq, text_leb, sort_by,
}
use version_aware_code_mcp.Vacerr
use version_aware_code_mcp.Effect.{Result, ok, err, Effect, pure, fail, lift, continue, ◌>>=◌, ◌>>◌}
use version_aware_code_mcp.Store
use version_aware_code_mcp.Files.{working}
use version_aware_code_mcp.Store.{Context, ContextMember, put_context, delete_context}
use version_aware_code_mcp.Store.Repositories.{repository, repository_dir, worktree_dir}
use version_aware_code_mcp.Managed.{in_state, context_resolving, context_ready, context_removing}
use version_aware_code_mcp.Managed.Locks.{holding, with_repository_locks}
use version_aware_code_mcp.Managed.Plane.{
  State, Plane, invalid, on_world, on_contexts, asking, repositories_of, ManagedContext, context_of,
}
use version_aware_code_mcp.Managed.Creating.{build, advanced}

-- The states that a retry refuses.
abbrev pub is_settled : Context → Bool
is_settled c = text_eq c.state context_ready || text_eq c.state context_removing

module _ {W : Type 0} (p : Plane W) (now : ℕ) where
  abbrev pub drop_ref : Text → ContextMember → Text → Effect W (Unit {0})
  drop_ref dir m [] = pure tt
  drop_ref dir m (c ∷ branch) = p.drop_search_ref dir m

  -- `memberPaths`, and what is done with the two paths.
  abbrev pub with_paths :
      Text → ContextMember → (Text → Text → Effect W (Unit {0})) → Effect (State W) (Unit {0})
  with_paths id m act = lift (repository_dir p.root m.repository) >>= λ dir.
      lift (worktree_dir p.root m.repository id) >>= λ worktree. on_world (act dir worktree)

  unfoldable pub take_members_apart : Text → List ContextMember → Effect (State W) (Unit {0})
  unfolding repository_dir worktree_dir
  take_members_apart id [] = pure tt
  take_members_apart id (m ∷ rest) =
      with_paths id m
        (λ dir worktree. p.discard_source dir worktree id m >> drop_ref dir m m.branch)
      >> take_members_apart id rest

  -- One rebuild for each repository, out of the records as they are.
  unfoldable pub index_each : List Text → Effect (State W) (Unit {0})
  index_each [] = pure tt
  index_each (repository ∷ rest) =
      (λ s. on_world (p.index_repository repository s.contexts) s) >> index_each rest

  abbrev pub dismantle : Context → Effect (State W) (Unit {0})
  dismantle c =
      take_members_apart c.id c.members >> index_each (sort_by text_leb (repositories_of c.members))

  -- Once the record says REMOVING: the artifacts, the indexes, and the record last.
  abbrev pub take_apart : Context → Effect (State W) (Unit {0})
  take_apart c = dismantle c >> on_contexts (delete_context c.id)

  unfoldable pub remove_locked : Text → Effect (State W) (Unit {0})
  unfolding take_members_apart index_each delete_context sort_by text_leb
  remove_locked id = asking (λ s. Store.context id s.contexts) >>= λ c.
      advanced p now context_removing c >>= λ c'. take_apart c'

  -- `ContextManager.Remove`; the record is read once in front of the locks, for the repositories.
  unfoldable pub remove : Text → Effect (State W) (Unit {0})
  unfolding remove_locked with_repository_locks
  remove id =
      holding (p.locks.hold_management (codes "context remove")) p.locks.release_management (
        asking (λ s. Store.context id s.contexts) >>= λ c.
        with_repository_locks p.locks (repositories_of c.members) (remove_locked id))

  -- The loop that throws away what an earlier run left.
  unfoldable pub discard_members : Text → List ContextMember → Effect (State W) (Unit {0})
  unfolding repository repository_dir worktree_dir
  discard_members id [] = pure tt
  discard_members id (m ∷ rest) = asking (λ s. repository m.repository s.repositories) >>= λ _.
      with_paths id m (λ dir worktree. p.discard_source dir worktree id m)
      >> discard_members id rest

  abbrev pub rebuild : Context → Effect (State W) Context
  rebuild c = discard_members c.id c.members >>= λ _.
      on_contexts (put_context working now (in_state context_resolving c)) >>= λ _.
      build p now (in_state context_resolving c)

  unfoldable pub retry_locked : Text → Effect (State W) Context
  unfolding discard_members build put_context
  retry_locked id = asking (λ s. Store.context id s.contexts) >>= λ c.
      if is_settled c then fail (invalid ((codes "context", Vacerr.text id) ∷ [])) else rebuild c

  -- `ContextManager.Retry`
  unfoldable pub retry : Text → Effect (State W) ManagedContext
  unfolding retry_locked with_repository_locks
  retry id =
      holding (p.locks.hold_management (codes "context retry")) p.locks.release_management (
        asking (λ s. Store.context id s.contexts) >>= λ c.
        with_repository_locks p.locks (repositories_of c.members) (retry_locked id))
      >>= λ c. pure (context_of c)
