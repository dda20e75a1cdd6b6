-- ===== src/Examples.antt =====
-- A small world to run the program in: one accepted configuration of two versions over two
-- repositories, a git that has every commit, and providers that find the same thing everywhere.
-- The world counts the calls that reached it.
pub mod Queries
pub mod Comparisons
pub mod Parts
pub mod Sources
pub mod Graphs
pub mod Lifecycle
use version_aware_code_mcp.Prelude.{
  ℕ, suc, Text, ℤ, pos, List, [], ◌∷◌, ◌++◌, Option, none, some, Bool, true, false, codes, ◌≡◌,
  refl, text_eq, is_blank, text_leb, arith,
}
use version_aware_code_mcp.Vacctx.{CodeContext, Workspace}
use version_aware_code_mcp.Effect.{Result, ok, err, Effect}
use version_aware_code_mcp.Provider.{
  SearchResult, SearchProvider, GraphProvider, SourceProvider, CallGraph, CallEdge, SourceContent,
  SourceDiff, modified, TraceRequest, callers,
}
use version_aware_code_mcp.Config.{Config, Repository, validate}
use version_aware_code_mcp.Resolver.{Git, source}
use version_aware_code_mcp.Engine.{Engine}
use version_aware_code_mcp.Zoekt.{Server, FileMatch, files, search_provider}

abbrev pub member : Text → Text → Text → Text → CodeContext
member id repository revision graph = record {
  id = id;
  repository = repository;
  branch = codes "b";
  revision = revision;
  graph_ref = graph;
}

abbrev pub config : Config
config = record {
  repositories =
      (codes "app", record { path = codes "/app" })
      ∷ (codes "lib", record { path = codes "/lib" })
      ∷ [];
  contexts =
      (
        codes "v1",
        record {
          id = codes "v1";
          members =
              member (codes "v1") (codes "app") (codes "1") (codes "ga")
              ∷ member (codes "v1") (codes "lib") (codes "2") (codes "gl")
              ∷ [];
        },
      )
      ∷ (
        codes "v2",
        record {
          id = codes "v2";
          members = member (codes "v2") (codes "app") (codes "3") (codes "gb") ∷ [];
        },
      )
      ∷ [];
}

pub config-accepted : validate config ≡ ok tt
unfolding validate text_leb is_blank
config-accepted = refl

abbrev pub git : Git ℕ
git = record { run = λ path args n. (ok (codes "abc"), suc n); cause = λ n. none }

abbrev pub server : Server ℕ
server = record {
  url = codes "http";
  quote_meta = λ s. s;
  exchange = λ query n. (
    files (
        record {
          file_name = codes "f";
          repository = codes "app";
          branches = codes "b" ∷ [];
          line_matches = record { line = codes "x"; line_number = pos 4; file_name = false } ∷ [];
        }
        ∷ []),
    suc n,
  );
  cause = λ n. none;
}

abbrev pub edge : Text → CallEdge
edge name = record { caller = name; callee = codes "g"; path = codes "f"; line = pos 7 }

abbrev pub graphs : GraphProvider ℕ
graphs = record {
  trace_calls = λ c req n.
      (ok (record { symbol = codes "g"; edges = edge c.revision ∷ edge (codes "h") ∷ [] }), suc n);
  closer = none;
}

abbrev pub sources : SourceProvider ℕ
sources = record {
  read = λ c path s e n. (
    ok (record {
      path = path;
      start_line = s;
      end_line = e;
      content = codes "x";
      revision = codes "abc";
    }),
    suc n,
  );
  differ = some (λ from to path n.
      (ok (record { path = path; change = modified; binary = false; hunks = [] }), suc n));
  history = none;
  closer = none;
}

abbrev pub engine : Engine ℕ
engine = record {
  contexts = source git config;
  search = some (search_provider server);
  graph = some graphs;
  source = some sources;
}
