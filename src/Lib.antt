-- ===== src/Lib.antt =====
-- version-aware-code-mcp: a server that answers questions about code in a named version and never
-- in another one. A context id names a workspace, one or more repositories each at one revision;
-- every query resolves the id, selects members of the workspace, asks a provider in each, and
-- answers with citations under the version that they were found in.
--
-- Parts, with the files of the repository that they model:
--   Prelude     lists, Booleans, integers and texts that the other parts share
--   Vacerr      vacerr/vacerr.go: error codes with their details, and errors.As
--   Vacctx      vacctx/vacctx.go: CodeContext and Workspace
--   Effect      Go functions returning (T, error), over a state of the outside world
--   Files       store/store.go: atomicWrite and syncDir, with what each call answers
--   Provider    provider/provider.go: the search, graph and source interfaces
--   Evidence    evidence/evidence.go: citations; Output is NewWorkspace, validate and wire
--   Engine      engine/engine.go: resolve, selectMembers, ListContexts, Close. Search is SearchCode
--               and SearchHistory (engine/search_history.go), Trace is TraceCalls, Source is
--               GetCode, Compare is CompareCode (engine/comparison.go, engine/compare_code.go),
--               Calls is CompareCalls (engine/compare_calls.go)
--   Config      config/config.go: the two spellings of a context, Load and validate
--   Deadline    internal/deadline/deadline.go: Ended and Override
--   Resolver    resolver/resolver.go: Resolve, Contexts and VerifyWorktree; it is the engine's
--               source of contexts
--   GitSource   adapters/git: the source provider over a clone. Paths is validatePath, Reading is
--               Read and readFailure (git.go), Diff is parseDiff with Comparing for Diff (diff.go),
--               History is SearchHistory (history.go)
--   Cbm         adapters/cbm/cbm.go: one query of the graph engine; Tracing is TraceCalls
--   Store       store/store.go: names, the two spellings of a context record, and the records;
--               Repositories has the repositories' records, the directories and the listings
--   Managed     managed/context.go: the lifecycle of a context over the store's records, advance,
--               fail, buildContext and readyContext. Naming is resolveRevision, searchRef, graphRef
--               and verifyIdentity, Creating is Create, Removing is Remove and Retry, Verifying is
--               verifyContext, Reporting is List, Status and Verify, Locks is managed/lock.go,
--               Graphs is verifyGraph (managed/source.go), Shards is repositoryShards
--               (managed/search.go), Repositories is managed/repository.go;
--               Plane is the state that these work on
--   Zoekt       adapters/zoekt/zoekt.go: a search provider, from the scoped query to the results
--   Examples    a small world in which the theorems are applied
--
-- How code becomes definitions. A method becomes a function of the record it reads, named as the
-- method is. A string is its sequence of characters, where a byte that is no valid UTF-8 is a
-- number beyond the code points. An error keeps its code and its details and loses its message. A
-- Go map is an association list; where a caller's details and added ones meet, the later entry
-- wins, as a later assignment does. The integers of a request are unbounded here: the code only
-- compares and copies them. Every loop runs over a list and is recursion on it, so no fuel is
-- needed and every definition is total, but for verifyGraph's walk over CBM's pages, which runs on
-- fuel: one more than the number of projects is enough (Managed.Graphs.Paging).
--
-- A loop that returns early carries what it has returned (GitSource.History.Walk). strconv.Atoi
-- keeps the range of a 64-bit int (Prelude.Numerals).
--
-- Parameters. Git, the HTTP exchange with Zoekt, regexp.QuoteMeta, CBM's replies, JSON decoding,
-- strings.ToLower, dates, the clock, the providers and the stages of a build are operations on a
-- state W of the world, about which nothing is assumed: each call may answer differently, and may
-- fail. A check of a graph is given a bound on the projects that CBM holds (most_projects).
--
-- Not modelled: the session with the CBM process, the budgets that a caller may set, what the
-- stages of a build do to clones, worktrees, shards and graphs, the fetching of repositories, the
-- MCP tools, the command line, JSON and YAML text, and messages. A write of a context may fail at
-- each of its calls (Store.put_context); the lifecycle is modelled over a disk on which these calls
-- succeed, and reading and deleting a record fail only where it is not there or does not decode.
-- Zoekt's own reading of a query, such as of quoted strings, is not modelled either.
pub mod Prelude
pub mod Vacerr
pub mod Vacctx
pub mod Effect
pub mod Files
pub mod Provider
pub mod Evidence
pub mod Engine
pub mod Config
pub mod Deadline
pub mod Resolver
pub mod GitSource
pub mod Cbm
pub mod Store
pub mod Managed
pub mod Zoekt
pub mod Examples
