-- ===== src/Examples/Queries.antt =====
-- The queries that answer in one version, run.
use version_aware_code_mcp.Prelude.{suc, text_leb}
use version_aware_code_mcp.Engine.{list_contexts}
use version_aware_code_mcp.Engine.Listing.{IsListed, list_contexts-IsListed}
use version_aware_code_mcp.Engine.Search.{SearchHistoryRequest, SearchHistoryResult, search_history}
use version_aware_code_mcp.Engine.Search.Commits.{IsFound, search_history-IsFound}
use version_aware_code_mcp.Prelude.{ℕ, pos, List, [], ◌∷◌, codes, ◌≡◌, refl, none, some, is_blank}
use version_aware_code_mcp.Vacerr.{Failure}
use version_aware_code_mcp.Vacctx.{CodeContext, Workspace}
use version_aware_code_mcp.Effect.{ok, err}
use version_aware_code_mcp.Evidence.{at, evidence_eq}
use version_aware_code_mcp.Provider.{SearchProvider, callers, CallEdge}
use version_aware_code_mcp.Engine
use version_aware_code_mcp.Engine.{Engine, resolve, in_one_member}
use version_aware_code_mcp.Engine.Asked.{Stopped}
use version_aware_code_mcp.Engine.Search.{SearchCodeRequest, SearchCodeResult, search_code}
use version_aware_code_mcp.Engine.Search.Provenance.{
  ask, IsSearched, search_code-IsSearched, search_code-Stopped,
}
use version_aware_code_mcp.Engine.Trace.{
  TraceCallsRequest, TraceCallsResult, trace_calls, cite_edges,
}
use version_aware_code_mcp.Engine.Trace.Citations.{
  IsTraced, trace_calls-IsTraced, IsCiting, cite_edges-IsCiting,
}
use version_aware_code_mcp.Engine.Source.{GetCodeRequest, GetCodeResult, get_code}
use version_aware_code_mcp.Engine.Source.Revision.{IsRead, get_code-IsRead}
use version_aware_code_mcp.Evidence.Output.{new_workspace}
use version_aware_code_mcp.Evidence.Output.Emitted.{search_code-new_workspace}
use version_aware_code_mcp.Resolver
use version_aware_code_mcp.Resolver.{source}
use version_aware_code_mcp.Resolver.Accepted.{engine_resolve-resolve}
use version_aware_code_mcp.Zoekt.{search_provider, search}
use version_aware_code_mcp.Config.{lookup, sorted}
use version_aware_code_mcp.Examples.{config, config-accepted, engine, member, git, edge}

abbrev app_v1 : CodeContext
app_v1 = member (codes "v1") (codes "app") (codes "1") (codes "ga")

abbrev lib_v1 : CodeContext
lib_v1 = member (codes "v1") (codes "lib") (codes "2") (codes "gl")

abbrev workspace_v1 : Workspace
workspace_v1 = record { id = codes "v1"; members = app_v1 ∷ lib_v1 ∷ [] }

abbrev search_request : SearchCodeRequest
search_request = record { context = codes "v1"; repository = []; query = codes " x(y) " }

abbrev found : SearchCodeResult
found = record {
  answer = record {
    workspace = workspace_v1;
    cited = (at (codes "f") (pos 4) (pos 4) (codes "x") ∷ []) ∷ [] ∷ [];
  };
  matches =
      record {
        repository = codes "app";
        revision = codes "1";
        path = codes "f";
        line = pos 4;
        snippet = codes "x";
      }
      ∷ [];
}

found_runs : search_code engine search_request 0 ≡ (ok found, 4)
unfolding search_code search_provider search source is_blank resolve Resolver.resolve lookup
    Engine.select_from
found_runs = refl

search_code-IsSearched_example : IsSearched engine search_request 0 4 found
search_code-IsSearched_example = search_code-IsSearched engine search_request 0 4 found found_runs

-- A search that answers for `lib` only.
abbrev broken_search : SearchProvider ℕ
broken_search = record {
  search = λ c query n. (err (Failure.plain c.repository), n);
  closer = none;
}

abbrev broken : Engine ℕ
broken = record {
  contexts = source git config;
  search = some broken_search;
  graph = none;
  source = none;
}

search_code-Stopped_example :
    Stopped
      (ask broken_search (codes " x(y) "))
      (app_v1 ∷ lib_v1 ∷ [])
      2
      (Failure.plain (codes "app"))
      2
unfolding search_code source is_blank resolve Resolver.resolve lookup Engine.select_from
search_code-Stopped_example =
    search_code-Stopped broken search_request broken_search workspace_v1 (app_v1 ∷ lib_v1 ∷ []) 0 2
      2 (Failure.plain (codes "app")) refl refl refl refl

search_code-new_workspace_example :
    new_workspace workspace_v1 found.answer.cited
    ≡ ok (record { workspace = workspace_v1; cited = found.answer.cited })
search_code-new_workspace_example =
    search_code-new_workspace engine git config search_request 0 4 found refl config-accepted
      found_runs

engine_resolve-resolve_example :
    Engine.resolve engine (codes "v1") 0 ≡ Resolver.resolve git config (codes "v1") 0
engine_resolve-resolve_example =
    engine_resolve-resolve git config engine (codes "v1") 0 refl config-accepted

abbrev trace_request : TraceCallsRequest
trace_request = record {
  context = codes "v1";
  repository = codes "app";
  symbol = codes "g";
  direction = callers;
  depth = pos 5;
}

abbrev traced : TraceCallsResult
traced = record {
  answer = in_one_member app_v1 (at (codes "f") (pos 7) (pos 7) [] ∷ []);
  graph = record { symbol = codes "g"; edges = edge (codes "1") ∷ edge (codes "h") ∷ [] };
}

trace_calls-IsTraced_example : IsTraced engine trace_request 0 3 traced
unfolding trace_calls source is_blank resolve Resolver.resolve lookup Engine.select_from
    Engine.single evidence_eq
trace_calls-IsTraced_example = trace_calls-IsTraced engine trace_request 0 3 traced refl

abbrev two_edges : List CallEdge
two_edges = edge (codes "a") ∷ edge (codes "b") ∷ []

cite_edges-IsCiting_example : IsCiting two_edges (cite_edges two_edges)
cite_edges-IsCiting_example = cite_edges-IsCiting two_edges

abbrev code_request : GetCodeRequest
code_request = record {
  context = codes "v2";
  repository = [];
  path = codes "f";
  start_line = pos 1;
  end_line = pos 2;
}

abbrev read : GetCodeResult
read = record {
  answer =
      in_one_member (member (codes "v2") (codes "app") (codes "abc") (codes "gb"))
        (at (codes "f") (pos 1) (pos 2) [] ∷ []);
  source = record {
    path = codes "f";
    start_line = pos 1;
    end_line = pos 2;
    content = codes "x";
    revision = codes "abc";
  };
}

get_code-IsRead_example : IsRead engine code_request 0 2 read
unfolding get_code source is_blank resolve Resolver.resolve lookup Engine.select_from Engine.single
get_code-IsRead_example = get_code-IsRead engine code_request 0 2 read refl

abbrev remembering : Engine ℕ
remembering = record engine {
  source = some (record {
    read = λ c path s e n. (err (Failure.plain []), n);
    differ = none;
    history = some (λ c query n. (
      ok (
          record {
            commit = codes "abc";
            path = codes "f";
            author = codes "x";
            timestamp = [];
            message = query.query;
          }
          ∷ []),
      suc n,
    ));
    closer = none;
  });
}

abbrev history_request : SearchHistoryRequest
history_request = record {
  context = codes "v2";
  repository = [];
  query = codes "fix";
  symbol = [];
  path = [];
  limit = pos 0;
}

abbrev remembered : SearchHistoryResult
remembered = record {
  answer =
      in_one_member (member (codes "v2") (codes "app") (codes "3") (codes "gb"))
        (at (codes "f") (pos 0) (pos 0) [] ∷ []);
  commits =
      record {
        repository = codes "app";
        commit = codes "abc";
        path = codes "f";
        author = codes "x";
        timestamp = [];
        message = codes "fix";
      }
      ∷ [];
}

search_history-IsFound_example : IsFound remembering history_request 0 2 remembered
unfolding search_history source is_blank resolve Resolver.resolve lookup Engine.select_from
search_history-IsFound_example =
    search_history-IsFound remembering history_request 0 2 remembered refl

abbrev listed : List Workspace
listed =
    workspace_v1
    ∷ record {
      id = codes "v2";
      members = member (codes "v2") (codes "app") (codes "3") (codes "gb") ∷ [];
    }
    ∷ []

list_contexts-IsListed_example : IsListed engine 0 0 listed
unfolding list_contexts source Resolver.contexts text_leb sorted
list_contexts-IsListed_example = list_contexts-IsListed engine 0 0 listed refl
