-- ===== src/Managed/Reporting.antt =====
-- List, Status and Verify of managed/context.go: what the records say, and whether the artifacts
-- still agree. None of the three writes: each takes the records and gives none back.
pub mod Confirmed
use version_aware_code_mcp.Prelude.{Text, List, [], ◌∷◌, map}
use version_aware_code_mcp.Effect.{Result, ok, err, Effect, pure, lift, ◌>>=◌}
use version_aware_code_mcp.Store
use version_aware_code_mcp.Store.{Context, ContextMember, Disk}
use version_aware_code_mcp.Store.Repositories.{worktree_dir, contexts}
use version_aware_code_mcp.Managed.Plane.{ManagedContext, context_of}
use version_aware_code_mcp.Managed.Verifying.{Artifacts, verify_context}

abbrev pub after : {A B : Type 0} → Result A → (A → Result B) → Result B
after (ok a) f = f a
after (err e) f = err e

pub record MemberArtifacts : Type 0 where
  pub repository : Text
  pub revision : Text
  pub search_ref : Text
  pub graph_ref : Text
  pub worktree : Text

pub record ContextStatus : Type 0 where
  pub context : ManagedContext
  pub artifacts : List MemberArtifacts

-- `List`
unfoldable pub list : Disk → Result (List ManagedContext)
unfolding contexts
list disk = after (contexts disk) (λ cs. ok (map context_of cs))

abbrev pub artifacts_of : ContextMember → Text → MemberArtifacts
artifacts_of m worktree = record {
  repository = m.repository;
  revision = m.revision;
  search_ref = m.branch;
  graph_ref = m.graph_ref;
  worktree = worktree;
}

-- The loop of `Status`
unfoldable pub artifacts_from : Text → Text → List ContextMember → Result (List MemberArtifacts)
unfolding worktree_dir
artifacts_from root id [] = ok []
artifacts_from root id (m ∷ rest) =
    after (worktree_dir root m.repository id) (λ worktree.
      after (artifacts_from root id rest) (λ rows. ok (artifacts_of m worktree ∷ rows)))

abbrev pub status_of : Text → Context → Result ContextStatus
status_of root c =
    after (artifacts_from root c.id c.members)
      (λ rows. ok (record { context = context_of c; artifacts = rows }))

-- `Status`
unfoldable pub status : Text → Text → Disk → Result ContextStatus
unfolding artifacts_from Store.context
status root id disk = after (Store.context id disk) (status_of root)

-- `Verify`
module _ {W : Type 0} (a : Artifacts W) where
  unfoldable pub verify : Text → Disk → Effect W ManagedContext
  unfolding verify_context Store.context
  verify id disk =
      lift (Store.context id disk) >>= λ c. verify_context a c >>= λ _. pure (context_of c)
