-- ===== src/Managed/Creating.antt =====
-- Create of managed/context.go: a context is recorded with each ref pinned to a commit, and built.
pub mod Created
pub mod Recorded
use version_aware_code_mcp.Prelude.{
  ℕ, Text, List, [], ◌∷◌, ◌++◌, map, Option, none, some, Bool, true, false, if◌then◌else◌, any,
  codes, text_eq, contains,
}
use version_aware_code_mcp.Vacerr
use version_aware_code_mcp.Vacerr.{Failure}
use version_aware_code_mcp.Effect.{Result, ok, err, Effect, pure, fail, lift, continue, ◌>>=◌, ◌>>◌}
use version_aware_code_mcp.Store
use version_aware_code_mcp.Files.{working}
use version_aware_code_mcp.Store.{Context, ContextMember, put_context}
use version_aware_code_mcp.Store.Repositories.{repository, repository_dir, worktree_dir}
use version_aware_code_mcp.Managed.{
  Built, Kept, in_state, advance, build_context, context_resolving,
}
use version_aware_code_mcp.Managed.Naming.{is_several, search_ref, graph_ref, resolve_revision}
use version_aware_code_mcp.Managed.Locks.{holding, with_repository_locks}
use version_aware_code_mcp.Managed.Plane.{
  State, Plane, invalid, on_world, on_contexts, asking, ManagedContext, context_of,
}

-- `Pin`
pub record Pin : Type 0 where
  pub repository : Text
  pub ref : Text

abbrev pub given_twice : Text → Pin → Failure
given_twice id pin =
    invalid
      ((codes "context", Vacerr.text id) ∷ (codes "repository", Vacerr.text pin.repository) ∷ [])

abbrev pub already_managed : Text → Failure
already_managed id = invalid ((codes "context", Vacerr.text id) ∷ [])

abbrev pub first_error : {A : Type 0} → Result A → Result (Unit {0}) → Result (Unit {0})
first_error (err f) rest = err f
first_error (ok a) rest = rest

-- The loop in front of the locks: names that can be path elements, and no repository twice.
unfoldable pub check_pins : Text → Text → List Text → List Pin → Result (Unit {0})
unfolding worktree_dir text_eq
check_pins root id seen [] = ok tt
check_pins root id seen (pin ∷ rest) =
    let later = check_pins root id (pin.repository ∷ seen) rest in
    first_error (worktree_dir root pin.repository id)
      (if any (text_eq pin.repository) seen then err (given_twice id pin) else later)

-- `pinnedRepositories`
abbrev pub pinned_repositories : List Pin → List Text
pinned_repositories pins = map (λ pin. pin.repository) pins

abbrev pub bare_member : Pin → Text → ContextMember
bare_member pin revision = record {
  repository = pin.repository;
  branch = [];
  revision = revision;
  graph_ref = [];
}

-- A member with the names that are generated for it.
abbrev pub name_member : Bool → Text → ContextMember → ContextMember
name_member several id m = record m { branch = search_ref several id m; graph_ref = graph_ref id m }

abbrev pub context_creating : Text
context_creating = codes "CREATING"

unfoldable pub named_record : Text → List ContextMember → Context
unfolding search_ref graph_ref
named_record id members = record {
  id = id;
  members = map (name_member (is_several members) id) members;
  state = context_creating;
  updated_at = 0;
}

-- Several errors that are joined: which is looked for first stands in front.
abbrev pub joined : Failure → List Failure → Failure
joined f [] = f
joined f (g ∷ rest) = Vacerr.wrapped f

abbrev pub outcome_of : {W : Type 0} → State W → Built W → List Failure → Result Context × State W
outcome_of s b [] = (ok b.context, record s { contexts = b.disk; world = b.world })
outcome_of s b (f ∷ rest) = (err (joined f rest), record s { contexts = b.disk; world = b.world })

module _ {W : Type 0} (p : Plane W) (now : ℕ) where
  -- `buildContext`, over the whole state
  unfoldable pub build : Context → Effect (State W) Context
  unfolding build_context
  build c s = let b = build_context now p.stages c s.contexts s.world in outcome_of s b b.errors

  unfoldable pub resolve_pin : Pin → Effect (State W) ContextMember
  unfolding repository repository_dir resolve_revision
  resolve_pin pin = asking (λ s. repository pin.repository s.repositories) >>= λ _.
      lift (repository_dir p.root pin.repository) >>= λ dir.
      on_world (resolve_revision p.git dir pin.repository pin.ref) >>= λ revision.
      pure (bare_member pin revision)

  -- The loop over the pins.
  unfoldable pub resolve_pins : List Pin → Effect (State W) (List ContextMember)
  unfolding resolve_pin
  resolve_pins [] = pure []
  resolve_pins (pin ∷ rest) = resolve_pin pin >>= λ m. resolve_pins rest >>= λ ms. pure (m ∷ ms)

  -- An advance whose caller goes on with the context.
  abbrev pub advanced : Text → Context → Effect (State W) Context
  advanced next c s =
      let (r, kept) = advance now next c s.contexts in
      continue r (record s { contexts = kept.1 }) (λ _. pure kept.0)

  abbrev pub unless_managed : Text → Result Context → Effect (State W) (Unit {0})
  unless_managed id (ok c) = fail (already_managed id)
  unless_managed id (err f) = pure tt

  -- The record, and the build of what it names.
  unfoldable pub record_and_build : Text → List ContextMember → Effect (State W) Context
  unfolding named_record advance build put_context
  record_and_build id members =
      let c = named_record id members in
      on_contexts (put_context working now c) >>= λ _.
      advanced context_resolving c >>= λ resolving. build resolving

  -- What runs under the locks.
  unfoldable pub create_locked : Text → List Pin → Effect (State W) Context
  unfolding resolve_pins record_and_build
  create_locked id pins s =
      (unless_managed id (Store.context id s.contexts) >>= λ _.
      resolve_pins pins >>= λ members. record_and_build id members)
        s

  abbrev pub create_pins : Text → List Pin → Effect (State W) ManagedContext
  create_pins id pins = lift (check_pins p.root id [] pins) >>= λ _.
      if contains (codes "..") id
      then fail (already_managed id)
      else (holding (p.locks.hold_management (codes "context create")) p.locks.release_management
            (with_repository_locks p.locks (pinned_repositories pins) (create_locked id pins))
          >>= λ c. pure (context_of c))

  -- `ContextManager.Create`
  unfoldable pub create : Text → List Pin → Effect (State W) ManagedContext
  unfolding check_pins contains create_locked with_repository_locks
  create id [] = fail (invalid ((codes "context", Vacerr.text id) ∷ []))
  create id (pin ∷ rest) = create_pins id (pin ∷ rest)
