-- ===== src/Engine/Search.antt =====
-- SearchCode of engine/engine.go and SearchHistory of engine/search_history.go: one query for each
-- selected member, in the members' own order; a member that fails fails the whole.
pub mod Provenance
pub mod Commits
use version_aware_code_mcp.Prelude.{
  Text, ℤ, pos, List, [], ◌∷◌, ◌++◌, map, Option, none, some, codes,
}
use version_aware_code_mcp.Vacerr
use version_aware_code_mcp.Vacerr.{
  search_provider_unavailable, repository_not_found, source_history_unavailable,
}
use version_aware_code_mcp.Vacctx.{CodeContext, Workspace}
use version_aware_code_mcp.Effect.{Effect, pure, fail, lift, continue, ◌>>=◌}
use version_aware_code_mcp.Provider.{
  SearchProvider, SearchResult, SourceProvider, HistoryProvider, HistoryQuery, HistoryEntry,
}
use version_aware_code_mcp.Evidence.{Evidence, at}
use version_aware_code_mcp.Engine.{Engine, Answer, resolve, select_members}

pub record SearchCodeRequest : Type 0 where
  pub context : Text
  pub repository : Text
  pub query : Text

pub record Match : Type 0 where
  pub repository : Text
  pub revision : Text
  pub path : Text
  pub line : ℤ
  pub snippet : Text

pub record SearchCodeResult : Type 0 where
  pub answer : Answer
  pub matches : List Match

abbrev pub match_in : CodeContext → SearchResult → Match
match_in m r = record {
  repository = m.repository;
  revision = m.revision;
  path = r.path;
  line = r.line;
  snippet = r.snippet;
}

abbrev pub cite_match : SearchResult → Evidence
cite_match r = at r.path r.line r.line r.snippet

module _ {W : Type 0} where
  -- The loop over the members, with `matches` and `cited` as they grow.
  unfoldable pub search_members :
      SearchProvider W
      → Text
      → List CodeContext
      → List Match
      → List (List Evidence)
      → Effect W (List Match × List (List Evidence))
  search_members p query [] matches cited = pure (matches, cited)
  search_members p query (m ∷ rest) matches cited = p.search m query >>= λ found.
      search_members p query rest (matches ++ map (match_in m) found)
        (cited ++ map cite_match found ∷ [])

  unfoldable pub search_selected :
      SearchProvider W → Text → Text → List CodeContext → Effect W SearchCodeResult
  unfolding search_members
  search_selected p id query members = search_members p query members [] [] >>= λ found.
      pure (record {
        answer = record { workspace = record { id = id; members = members }; cited = found.1 };
        matches = found.0;
      })

  unfoldable pub search_with :
      Option (SearchProvider W)
      → SearchCodeRequest
      → Text
      → List CodeContext
      → Effect W SearchCodeResult
  unfolding search_selected
  search_with none req id members =
      fail
        (Vacerr.new search_provider_unavailable ((codes "context", Vacerr.text req.context) ∷ []))
  search_with (some p) req id members = search_selected p id req.query members

  unfoldable pub search_code : Engine W → SearchCodeRequest → Effect W SearchCodeResult
  unfolding search_with
  search_code e req = resolve e req.context >>= λ workspace.
      lift (select_members req.context req.repository workspace) >>= λ members.
      search_with e.search req workspace.id members

pub record SearchHistoryRequest : Type 0 where
  pub context : Text
  pub repository : Text
  pub query : Text
  pub symbol : Text
  pub path : Text
  pub limit : ℤ

pub record Commit : Type 0 where
  pub repository : Text
  pub commit : Text
  pub path : Text
  pub author : Text
  pub timestamp : Text
  pub message : Text

pub record SearchHistoryResult : Type 0 where
  pub answer : Answer
  pub commits : List Commit

abbrev pub commit_in : CodeContext → HistoryEntry → Commit
commit_in m e = record {
  repository = m.repository;
  commit = e.commit;
  path = e.path;
  author = e.author;
  timestamp = e.timestamp;
  message = e.message;
}

abbrev pub cite_commit : HistoryEntry → Evidence
cite_commit e = at e.path (pos 0) (pos 0) []

abbrev pub history_query : SearchHistoryRequest → HistoryQuery
history_query req = record {
  query = req.query;
  symbol = req.symbol;
  path = req.path;
  limit = req.limit;
}

module _ {W : Type 0} where
  unfoldable pub history_members :
      HistoryProvider W
      → HistoryQuery
      → List CodeContext
      → List Commit
      → List (List Evidence)
      → Effect W (List Commit × List (List Evidence))
  history_members h query [] commits cited = pure (commits, cited)
  history_members h query (m ∷ rest) commits cited = h m query >>= λ found.
      history_members h query rest (commits ++ map (commit_in m) found)
        (cited ++ map cite_commit found ∷ [])

  unfoldable pub history_selected :
      HistoryProvider W → Text → HistoryQuery → List CodeContext → Effect W SearchHistoryResult
  unfolding history_members
  history_selected h id query members = history_members h query members [] [] >>= λ found.
      pure (record {
        answer = record { workspace = record { id = id; members = members }; cited = found.1 };
        commits = found.0;
      })

  unfoldable pub history_capability :
      Option (HistoryProvider W)
      → SearchHistoryRequest
      → Text
      → List CodeContext
      → Effect W SearchHistoryResult
  unfolding history_selected
  history_capability none req id members =
      fail (Vacerr.new source_history_unavailable ((codes "context", Vacerr.text req.context) ∷ []))
  history_capability (some h) req id members = history_selected h id (history_query req) members

  unfoldable pub history_with :
      Option (SourceProvider W)
      → SearchHistoryRequest
      → Text
      → List CodeContext
      → Effect W SearchHistoryResult
  unfolding history_capability
  history_with none req id members =
      fail (Vacerr.new repository_not_found ((codes "context", Vacerr.text req.context) ∷ []))
  history_with (some p) req id members = history_capability p.history req id members

  unfoldable pub search_history : Engine W → SearchHistoryRequest → Effect W SearchHistoryResult
  unfolding history_with
  search_history e req = resolve e req.context >>= λ workspace.
      lift (select_members req.context req.repository workspace) >>= λ members.
      history_with e.source req workspace.id members
