-- ===== src/Engine/Trace.antt =====
-- TraceCalls of engine/engine.go: the walk of one member's call graph, cited at its call sites.
pub mod Citations
use version_aware_code_mcp.Prelude.{
  Text, ℤ, List, [], ◌∷◌, ◌++◌, Option, none, some, Bool, true, false, if◌then◌else◌, codes, any,
}
use version_aware_code_mcp.Vacerr
use version_aware_code_mcp.Vacerr.{
  Code, Details, Failure, Vacerr, as_vacerr, symbol_ambiguous, invalid_argument,
  graph_provider_unavailable,
}
use version_aware_code_mcp.Vacctx.{CodeContext, Workspace}
use version_aware_code_mcp.Effect.{Result, ok, err, Effect, pure, fail, lift, continue, ◌>>=◌, ◌>>◌}
use version_aware_code_mcp.Provider.{GraphProvider, TraceRequest, Direction, CallGraph, CallEdge}
use version_aware_code_mcp.Evidence.{Evidence, at, evidence_eq}
use version_aware_code_mcp.Engine.{
  Engine, Answer, resolve, select_members, depth_out_of_range, repository_required, single,
  only_member, require, in_one_member,
}

pub record TraceCallsRequest : Type 0 where
  pub context : Text
  pub repository : Text
  pub symbol : Text
  pub direction : Direction
  pub depth : ℤ

pub record TraceCallsResult : Type 0 where
  pub answer : Answer
  pub graph : CallGraph

abbrev pub edge_at : CallEdge → Evidence
edge_at edge = at edge.path edge.line edge.line []

-- The loop of `citeEdges`, which TraceCalls repeats: `seen` holds what `citations` holds.
unfoldable pub cite_from : List Evidence → List CallEdge → List Evidence
cite_from citations [] = citations
cite_from citations (edge ∷ rest) =
    cite_from
      (if any (evidence_eq (edge_at edge)) citations
        then citations
        else citations ++ edge_at edge ∷ [])
      rest

unfoldable pub cite_edges : List CallEdge → List Evidence
unfolding cite_from
cite_edges edges = cite_from [] edges

unfoldable pub is_ambiguous : Code → Bool
is_ambiguous symbol_ambiguous = true
is_ambiguous _ = false

abbrev pub add_repository : Text → Failure → Option Vacerr → Failure
add_repository repository f none = f
add_repository repository f (some e) =
    if is_ambiguous e.code
    then Vacerr.new symbol_ambiguous
        (e.details ++ (codes "repository", Vacerr.text repository) ∷ [])
    else f

-- What the walk's failure is reported as: an ambiguity says in which repository it was.
unfoldable pub in_repository : Text → Failure → Failure
unfolding is_ambiguous
in_repository repository f = add_repository repository f (as_vacerr f)

abbrev pub map_failure : {A : Type 0} → (Failure → Failure) → Result A → Result A
map_failure g (ok a) = ok a
map_failure g (err f) = err (g f)

-- A call whose failure is reported otherwise.
abbrev pub on_failure : {W A : Type 0} → (Failure → Failure) → Effect W A → Effect W A
on_failure g m w = (map_failure g (m w).0, (m w).1)

abbrev pub trace_request : TraceCallsRequest → TraceRequest
trace_request req = record { symbol = req.symbol; direction = req.direction; depth = req.depth }

module _ {W : Type 0} where
  unfoldable pub trace_with :
      Option (GraphProvider W) → TraceCallsRequest → CodeContext → Effect W TraceCallsResult
  unfolding cite_edges in_repository
  trace_with none req c = fail (
      Vacerr.new graph_provider_unavailable (
        (codes "context", Vacerr.text req.context) ∷ (codes "symbol", Vacerr.text req.symbol) ∷ []))
  trace_with (some p) req c =
      lift (require req.context (codes "graph_ref") c.graph_ref)
      >> (on_failure (in_repository c.repository) (p.trace_calls c (trace_request req)) >>= λ graph.
          pure (record { answer = in_one_member c (cite_edges graph.edges); graph = graph }))

  unfoldable pub trace_member : Engine W → TraceCallsRequest → Effect W CodeContext
  trace_member e req = resolve e req.context >>= λ workspace.
      lift (select_members req.context req.repository workspace) >>= λ members. lift (
        only_member
          (repository_required req.context members ((codes "symbol", Vacerr.text req.symbol) ∷ []))
          (single members))

  unfoldable pub trace_calls : Engine W → TraceCallsRequest → Effect W TraceCallsResult
  unfolding trace_with trace_member depth_out_of_range
  trace_calls e req w =
      if depth_out_of_range req.depth
      then fail
          (Vacerr.new invalid_argument (
            (codes "context", Vacerr.text req.context)
            ∷ (codes "symbol", Vacerr.text req.symbol)
            ∷ (codes "depth", Vacerr.number req.depth)
            ∷ []))
          w
      else (trace_member e req >>= λ c. trace_with e.graph req c) w
