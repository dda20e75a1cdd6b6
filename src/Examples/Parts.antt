-- ===== src/Examples/Parts.antt =====
-- The parts under the engine, run.
use version_aware_code_mcp.Prelude.{ℕ, suc, inl}
use version_aware_code_mcp.Vacerr.{Failure}
use version_aware_code_mcp.Managed.{
  Stages, advances, context_resolving, context_ready, context_removing,
}
use version_aware_code_mcp.Managed.Serving.{advances-stopped}
use version_aware_code_mcp.Prelude.{
  pos, List, [], ◌∷◌, ◌++◌, codes, ◌≡◌, ◌≢◌, ◌↔◌, refl, text_eq, true,
}
use version_aware_code_mcp.Vacctx.{CodeContext, Workspace}
use version_aware_code_mcp.Effect.{ok, err}
use version_aware_code_mcp.Evidence.Output.{new_workspace}
use version_aware_code_mcp.Evidence.Output.Attribution.{IsEmittable, new_workspace_iff}
use version_aware_code_mcp.Provider.{SearchResult}
use version_aware_code_mcp.Config.{lookup, validate, workspace_of, declared_of}
use version_aware_code_mcp.Config.Validity.{IsValid, validate_iff}
use version_aware_code_mcp.Config.Spelling.{workspace_of-declared_of}
use version_aware_code_mcp.Resolver
use version_aware_code_mcp.Resolver.{Git, verify_worktree}
use version_aware_code_mcp.Resolver.Resolution.{IsResolved, resolve-IsResolved}
use version_aware_code_mcp.Resolver.Worktree.{IsOnRevision, verify_worktree_iff}
use version_aware_code_mcp.Store.{Context, Disk, marshal, unmarshal, validate_name, put_context}
use version_aware_code_mcp.Store.Names.{IsPathElement, validate_name-IsPathElement}
use version_aware_code_mcp.Store.Spelling.{unmarshal-marshal}
use version_aware_code_mcp.Files.{Answers, working}
use version_aware_code_mcp.Store.Records.{Outcome, put_context-IsFiled}
use version_aware_code_mcp.Zoekt
use version_aware_code_mcp.Zoekt.{balanced}
use version_aware_code_mcp.Zoekt.Group.{IsBalanced, balanced_iff}
use version_aware_code_mcp.Zoekt.Isolation.{IsAnswered, search-IsAnswered}
use version_aware_code_mcp.Examples.{config, member, git, server}

validate_iff_example : (validate config ≡ ok tt) ↔ IsValid config
validate_iff_example = validate_iff config

abbrev app : CodeContext
app = member (codes "v1") (codes "app") (codes "1") (codes "ga")

abbrev lib : CodeContext
lib = member (codes "v1") (codes "lib") (codes "2") (codes "gl")

abbrev workspace_v1 : Workspace
workspace_v1 = record { id = codes "v1"; members = app ∷ lib ∷ [] }

workspace_of-declared_of_example :
    workspace_of (codes "v1") (declared_of workspace_v1) ≡ ok workspace_v1
workspace_of-declared_of_example = workspace_of-declared_of workspace_v1 (refl, (refl, tt)) tt

resolve-IsResolved_example : IsResolved git config (codes "v1") 0 2 workspace_v1
unfolding Resolver.resolve lookup text_eq
resolve-IsResolved_example = resolve-IsResolved git config (codes "v1") 0 2 workspace_v1 refl

verify_worktree_iff_example :
    (verify_worktree git (codes "/app") app 0 ≡ (ok tt, 2))
    ↔ IsOnRevision git (codes "/app") app 0 2
verify_worktree_iff_example = verify_worktree_iff git (codes "/app") app 0 2

balanced_iff_example :
    (balanced (codes "a) or (b") ≡ true) ↔ IsBalanced (codes "a) or (b" ++ codes " ")
balanced_iff_example = balanced_iff (codes "a) or (b")

abbrev one_line : List SearchResult
one_line = record { path = codes "f"; line = pos 4; snippet = codes "x" } ∷ []

search-IsAnswered_example : IsAnswered server app (codes "(q)") 0 1 one_line
unfolding Zoekt.search text_eq
search-IsAnswered_example = search-IsAnswered server app (codes "(q)") 0 1 one_line refl

validate_name-IsPathElement_example : IsPathElement (codes "lib-2.x")
unfolding validate_name
validate_name-IsPathElement_example =
    validate_name-IsPathElement (codes "context") (codes "lib-2.x") refl

abbrev stored : Context
stored = record {
  id = codes "v1";
  members =
      record {
        repository = codes "app";
        branch = codes "b";
        revision = codes "1";
        graph_ref = codes "ga";
      }
      ∷ [];
  state = codes "READY";
  updated_at = 3;
}

unmarshal-marshal_example : (unmarshal (marshal stored) ≡ ok stored) ↔ (stored.members ≢ [])
unmarshal-marshal_example = unmarshal-marshal stored

abbrev written : Disk
written = (codes "v1", marshal (record stored { updated_at = 9 })) ∷ []

-- The directory cannot be flushed: the write fails, and the record is there.
abbrev unflushed_write : Answers
unflushed_write = record working { sync_dir = err (Failure.plain (codes "io error")) }

put_context-IsFiled_example :
    Outcome unflushed_write 9 stored []
      (err (Failure.wrapped (Failure.plain (codes "io error"))))
      written
unfolding put_context
put_context-IsFiled_example =
    put_context-IsFiled unflushed_write 9 stored [] written
      (err (Failure.wrapped (Failure.plain (codes "io error")))) refl

new_workspace_iff_example :
    (new_workspace workspace_v1 ([] ∷ [] ∷ [])
      ≡ ok (record { workspace = workspace_v1; cited = [] ∷ [] ∷ [] }))
    ↔ IsEmittable workspace_v1 ([] ∷ [] ∷ [])
new_workspace_iff_example = new_workspace_iff workspace_v1 ([] ∷ [] ∷ [])

abbrev resolving : Context
resolving = record stored { state = context_resolving }

-- The search index cannot be written.
abbrev stages : Stages ℕ
stages = record {
  prepare_source = λ c disk n. (ok tt, suc n);
  index_search = λ c disk n. (err (Failure.plain (codes "disk full")), suc n);
  index_graph = λ c disk n. (ok tt, suc n);
  verify = λ c disk n. (ok tt, suc n);
}

advances-stopped_example :
    (advances context_ready (codes "VERIFYING") ≡ true) ↔ (codes "VERIFYING" ≡ context_removing)
advances-stopped_example = advances-stopped context_ready (codes "VERIFYING") (inl refl)
