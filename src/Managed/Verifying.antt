-- ===== src/Managed/Verifying.antt =====
-- verifyContext of managed/context.go, with verifySource (managed/source.go) and verifySearchRef
-- (managed/search.go): every artifact that a record names is asked what it is. The walk over CBM's
-- pages is that of Graphs, and the files of the index are told apart by Shards.
pub mod Verified
use version_aware_code_mcp.Prelude.{
  ℕ, suc, Text, ℤ, List, [], ◌∷◌, ◌++◌, Option, none, some, Bool, true, false, if◌then◌else◌, codes,
  text_eq,
}
use version_aware_code_mcp.Vacerr
use version_aware_code_mcp.Vacerr.{
  Failure, new_source_mismatch, revision_not_found, search_provider_unavailable,
}
use version_aware_code_mcp.Effect.{Result, ok, err, Effect, pure, fail, lift, continue, ◌>>=◌, ◌>>◌}
use version_aware_code_mcp.Resolver.{handle}
use version_aware_code_mcp.Store.{Context, ContextMember}
use version_aware_code_mcp.Store.Repositories.{repository_dir, worktree_dir}
use version_aware_code_mcp.Managed.Naming.{rev_parse, verify_identity}
use version_aware_code_mcp.Managed.Graphs.{Listing, graph_unavailable, verify_graph}
use version_aware_code_mcp.Managed.Shards.{DirEntry, shards_of}

-- What the checks ask: git, which prints its output trimmed; the directories; and CBM, page by page.
-- `most_projects` bounds the projects that CBM holds.
pub record Artifacts (W : Type 0) : Type 0 where
  pub root : Text
  pub git : List Text → Effect W Text
  pub read_dir : Text → Effect W (List DirEntry)
  pub list_projects : ℤ → W → Listing × W
  pub most_projects : ℕ

abbrev pub member_details : Text → ContextMember → Vacerr.Details
member_details id m =
    (codes "context", Vacerr.text id) ∷ (codes "repository", Vacerr.text m.repository) ∷ []

abbrev pub unavailable : Text → ContextMember → Failure
unavailable id m = Vacerr.new search_provider_unavailable (member_details id m)

abbrev pub lost_revision : Text → ContextMember → Failure
lost_revision id m =
    Vacerr.new revision_not_found
      (member_details id m ++ (codes "revision", Vacerr.text m.revision) ∷ [])

module _ {W : Type 0} (a : Artifacts W) where
  -- A command's answer has to be the pinned revision.
  abbrev pub is_pinned : ContextMember → Vacerr.Details → Text → Effect W (Unit {0})
  is_pinned m details found =
      if text_eq found m.revision
      then pure tt
      else fail (new_source_mismatch m.revision found details)

  abbrev pub asked_for :
      Effect W Text → (Failure → Failure) → ContextMember → Vacerr.Details → Effect W (Unit {0})
  asked_for question refusal m details w =
      handle (question w) (is_pinned m details) (λ f. fail (refusal f))

  abbrev pub head_of : Text → Effect W Text
  head_of worktree = a.git (codes "-C" ∷ worktree ∷ codes "rev-parse" ∷ codes "HEAD" ∷ [])

  -- `verifySource`
  unfoldable pub verify_source : Text → Text → ContextMember → Effect W (Unit {0})
  unfolding text_eq new_source_mismatch
  verify_source worktree id m =
      asked_for (head_of worktree) (λ f. Vacerr.wrapped f) m (member_details id m)

  abbrev pub ref_of : Text → ContextMember → Effect W Text
  ref_of dir m = a.git (
      codes "-C"
      ∷ dir
      ∷ codes "rev-parse"
      ∷ codes "--verify"
      ∷ codes "--end-of-options"
      ∷ (codes "refs/heads/" ++ m.branch)
      ∷ [])

  abbrev pub some_shard : Text → ContextMember → List Text → Effect W (Unit {0})
  some_shard id m [] = fail (unavailable id m)
  some_shard id m (path ∷ rest) = pure tt

  abbrev pub verify_ref : Text → Text → ContextMember → Effect W (Unit {0})
  verify_ref dir id m =
      asked_for (ref_of dir m) (λ f. unavailable id m) m
        (member_details id m ++ (codes "branch", Vacerr.text m.branch) ∷ [])

  abbrev pub index_dir : Text
  index_dir = a.root ++ codes "/zoekt"

  -- `repositoryShards`
  unfoldable pub repository_shards : Text → Effect W (List Text)
  unfolding shards_of
  repository_shards repository w =
      handle (a.read_dir index_dir w) (λ entries. pure (shards_of index_dir repository entries))
        (λ f. fail (Vacerr.wrapped f))

  -- `verifySearchRef`
  unfoldable pub verify_search_ref : Text → Text → ContextMember → Effect W (Unit {0})
  unfolding text_eq new_source_mismatch repository_shards
  verify_search_ref dir id m =
      verify_ref dir id m >>= λ _. repository_shards m.repository >>= λ paths. some_shard id m paths

  abbrev pub walked :
      Text → ContextMember → W → Option (Result (Unit {0}) × W) → Result (Unit {0}) × W
  walked id m w (some out) = out
  walked id m w none = (err (graph_unavailable id m), w)

  -- `verifyGraph`, with fuel for all the pages that CBM can hold, which the walk does not run out of
  -- (Verified.check_graph-verify_graph); what stands for running out of it is a failure.
  unfoldable pub check_graph : Text → ContextMember → Effect W (Unit {0})
  unfolding verify_graph
  check_graph id m w = walked id m w (verify_graph a.list_projects (suc a.most_projects) id m w)

  -- The pinned revision is still a commit of the clone.
  abbrev pub verify_commit : Text → Text → ContextMember → Effect W (Unit {0})
  verify_commit dir id m =
      asked_for (rev_parse a.git dir m.revision) (λ f. lost_revision id m) m (member_details id m)

  unfoldable pub verify_member : Text → ContextMember → Text → Text → Effect W (Unit {0})
  unfolding verify_source verify_search_ref check_graph
  verify_member id m dir worktree = verify_commit dir id m >>= λ _.
      verify_source worktree id m >>= λ _. verify_search_ref dir id m >>= λ _. check_graph id m

  -- The loop over the members.
  unfoldable pub verify_members : Text → List ContextMember → Effect W (Unit {0})
  unfolding verify_member repository_dir worktree_dir
  verify_members id [] = pure tt
  verify_members id (m ∷ rest) = lift (repository_dir a.root m.repository) >>= λ dir.
      lift (worktree_dir a.root m.repository id) >>= λ worktree.
      verify_member id m dir worktree >>= λ _. verify_members id rest

  -- `verifyContext`
  unfoldable pub verify_context : Context → Effect W (Unit {0})
  unfolding verify_members verify_identity
  verify_context c = verify_members c.id c.members >>= λ _. lift (verify_identity c)
