-- ===== src/Examples/Lifecycle.antt =====
-- A data directory with one repository, on a world in which every command succeeds.
use version_aware_code_mcp.Prelude.{
  ℕ, zero, suc, Text, ℤ, pos, negsuc, ap, List, [], ◌∷◌, none, true, false, codes, ◌≡◌, ◌↔◌, refl,
  text_eq, arith, In,
}
use version_aware_code_mcp.Effect.{ok, Effect}
use version_aware_code_mcp.Config.{lookup}
use version_aware_code_mcp.Store
use version_aware_code_mcp.Store.{Context, ContextMember, marshal, validate_name}
use version_aware_code_mcp.Store.Repositories.{Repository}
use version_aware_code_mcp.Managed.{advance, context_ready, context_failed}
use version_aware_code_mcp.Managed.Graphs.{Page, Listing, page, unusable, verify_graph}
use version_aware_code_mcp.Managed.Graphs.Paging.{IsFinite, IsEnded, verify_graph-IsEnded}
use version_aware_code_mcp.Managed.Naming.Identity.{search_ref-injective}
use version_aware_code_mcp.Managed.Naming.{search_ref}
use version_aware_code_mcp.Managed.Verifying.{Artifacts}
use version_aware_code_mcp.Managed.Reporting.{list, status, verify, artifacts_of}
use version_aware_code_mcp.Managed.Reporting.Confirmed.{IsConfirmed, verify-IsConfirmed}
use version_aware_code_mcp.Managed.Locks.{lock_names}
use version_aware_code_mcp.Managed.Locks.Order.{IsAscending, lock_names-IsAscending}
use version_aware_code_mcp.Managed.Plane.{State, Plane, context_of}
use version_aware_code_mcp.Managed.Creating.{Pin, create}
use version_aware_code_mcp.Managed.Creating.Recorded.{IsCreated, create-IsCreated}
use version_aware_code_mcp.Managed.Removing.{remove_locked, retry}
use version_aware_code_mcp.Managed.Removing.Removed.{HowRemoved, remove_locked-HowRemoved}
use version_aware_code_mcp.Managed.Removing.Retried.{IsRetried, retry-IsRetried}
use version_aware_code_mcp.Managed.Repositories
use version_aware_code_mcp.Managed.Repositories.Dependents.{IsFreed, remove_locked-IsFreed}

abbrev sha : Text
sha = codes "0123456789012345678901234567890123456789"

abbrev member : ContextMember
member = record {
  repository = codes "app";
  branch = codes "vacmcp/v-012345678901";
  revision = sha;
  graph_ref = codes "vacmcp-app-v-012345678901";
}

abbrev context_in : Text → Context
context_in state = record { id = codes "v"; members = member ∷ []; state = state; updated_at = 3 }

abbrev app : Repository
app = record {
  name = codes "app";
  url = codes "u";
  state = context_ready;
  last_sync_at = 1;
  updated_at = 1;
}

abbrev holding_context : Text → State ℕ
holding_context state = record {
  repositories = (codes "app", app) ∷ [];
  contexts = (codes "v", marshal (context_in state)) ∷ [];
  world = 0;
}

abbrev empty : State ℕ
empty = record { repositories = (codes "app", app) ∷ []; contexts = []; world = 0 }

abbrev counted : Effect ℕ (Unit {0})
counted n = (ok tt, suc n)

abbrev plane : Plane ℕ
plane = record {
  root = codes "/d";
  locks = record {
    take_lock = λ name s. (ok tt, s);
    drop_lock = λ name s. s;
    hold_management = λ command s. (ok tt, s);
    release_management = λ s. s;
  };
  git = λ args n. (ok sha, suc n);
  run_git = λ args. counted;
  stages = record {
    prepare_source = λ c d. counted;
    index_search = λ c d. counted;
    index_graph = λ c d. counted;
    verify = λ c d. counted;
  };
  discard_source = λ dir worktree id m. counted;
  drop_search_ref = λ dir m. counted;
  index_repository = λ repository d. counted;
  remove_all = λ path. counted;
}

abbrev pins : List Pin
pins = record { repository = codes "app"; ref = codes "main" } ∷ []

create-IsCreated_example :
    IsCreated plane 5
      (codes "v")
      pins
      empty
      (create plane 5 (codes "v") pins empty).1
      (context_of (record (context_in context_ready) { updated_at = 0 }))
unfolding create lookup Store.context
create-IsCreated_example =
    create-IsCreated plane 5 (codes "v") pins empty (create plane 5 (codes "v") pins empty).1
      (context_of (record (context_in context_ready) { updated_at = 0 })) refl

retry-IsRetried_example :
    IsRetried plane 5
      (codes "v")
      (holding_context context_failed)
      (retry plane 5 (codes "v") (holding_context context_failed)).1
      (context_of (context_in context_ready))
unfolding retry lookup Store.context
retry-IsRetried_example =
    retry-IsRetried plane 5 (codes "v") (holding_context context_failed)
      (retry plane 5 (codes "v") (holding_context context_failed)).1
      (context_of (context_in context_ready)) refl

remove_locked-HowRemoved_example :
    HowRemoved plane 5
      (context_in context_ready)
      (holding_context context_ready)
      (remove_locked plane 5 (codes "v") (holding_context context_ready)).1
      (ok tt)
unfolding remove_locked lookup Store.context text_eq marshal advance Store.put_context
remove_locked-HowRemoved_example =
    remove_locked-HowRemoved plane 5 (codes "v") (context_in context_ready)
      (holding_context context_ready)
      (remove_locked plane 5 (codes "v") (holding_context context_ready)).1 (ok tt) refl refl

remove_locked-IsFreed_example :
    IsFreed plane 5
      (codes "app")
      empty
      (Repositories.remove_locked plane 5 (codes "app") (codes "/d/repos/app") empty).1
unfolding Repositories.remove_locked lookup
remove_locked-IsFreed_example =
    remove_locked-IsFreed plane 5 (codes "app") (codes "/d/repos/app") empty
      (Repositories.remove_locked plane 5 (codes "app") (codes "/d/repos/app") empty).1 refl

lock_names-IsAscending_example :
    IsAscending (lock_names (codes "lib" ∷ codes "app" ∷ codes "lib" ∷ []))
    × ((name : Text)
        → In name (lock_names (codes "lib" ∷ codes "app" ∷ codes "lib" ∷ []))
          ↔ In name (codes "lib" ∷ codes "app" ∷ codes "lib" ∷ []))
lock_names-IsAscending_example =
    lock_names-IsAscending (codes "lib" ∷ codes "app" ∷ codes "lib" ∷ [])

abbrev artifacts : Artifacts ℕ
artifacts = record {
  root = codes "/d";
  git = λ args n. (ok sha, suc n);
  read_dir =
      λ dir n. (ok (record { name = codes "app_v16.00000.zoekt"; is_dir = false } ∷ []), suc n);
  list_projects = λ offset n. (
    page (record { projects = member.graph_ref ∷ []; has_more = false; next_offset = none }),
    suc n,
  );
  most_projects = 1;
}

verify-IsConfirmed_example :
    IsConfirmed artifacts
      (codes "v")
      (holding_context context_ready).contexts
      0
      5
      (context_of (context_in context_ready))
unfolding verify lookup text_eq marshal
verify-IsConfirmed_example =
    verify-IsConfirmed artifacts (codes "v") (holding_context context_ready).contexts 0 5
      (context_of (context_in context_ready)) refl

-- What an operator is shown of the context.
list_ready :
    list (holding_context context_ready).contexts ≡ ok (context_of (context_in context_ready) ∷ [])
unfolding list lookup text_eq marshal
list_ready = refl

status_ready :
    status (codes "/d") (codes "v") (holding_context context_ready).contexts
    ≡ ok (record {
      context = context_of (context_in context_ready);
      artifacts = artifacts_of member (codes "/d/worktrees/app/v") ∷ [];
    })
unfolding status lookup text_eq marshal
status_ready = refl

search_ref-injective_example : codes "v" ≡ codes "v"
unfolding search_ref
search_ref-injective_example =
    search_ref-injective true (codes "v") (codes "v") member (record member { branch = codes "b" })
      refl refl refl refl

-- Two pages, of which the second holds the graph.
abbrev first_page : Page
first_page = record { projects = codes "x" ∷ []; has_more = true; next_offset = none }

abbrev last_page : Page
last_page = record { projects = member.graph_ref ∷ []; has_more = false; next_offset = none }

abbrev pages : ℤ → ℕ → Listing × ℕ
pages (pos zero) n = (page first_page, suc n)
pages (pos (suc k)) n = (page last_page, suc n)
pages (negsuc k) n = (unusable, suc n)

pages-IsFinite : IsFinite pages 2
pages-IsFinite zero w p listed more = omega arith
pages-IsFinite (suc k) w p listed more =
    let same : last_page ≡ p = ground (arith, listed) in absurd (cc (ap (λ q. q.has_more) same))

verify_graph-IsEnded_example : IsEnded pages member (verify_graph pages 3 (codes "v") member 0)
verify_graph-IsEnded_example = verify_graph-IsEnded pages 2 (codes "v") member 0 pages-IsFinite
