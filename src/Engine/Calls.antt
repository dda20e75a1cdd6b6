-- ===== src/Engine/Calls.antt =====
-- engine/compare_calls.go: one symbol's call graph in two versions, as a difference of relations.
pub mod Groups
pub mod Partition
pub mod Sides
use version_aware_code_mcp.Prelude.{
  Text, ℤ, List, [], ◌∷◌, ◌++◌, map, Option, none, some, Bool, true, false, ◌&&◌, if◌then◌else◌,
  codes, text_eq, any,
}
use version_aware_code_mcp.Vacerr
use version_aware_code_mcp.Vacerr.{
  Code, Details, Failure, Vacerr, as_vacerr, symbol_ambiguous, symbol_not_found, invalid_argument,
  graph_provider_unavailable,
}
use version_aware_code_mcp.Vacctx.{CodeContext}
use version_aware_code_mcp.Effect.{Result, ok, err, Effect, pure, fail, lift, continue, ◌>>=◌, ◌>>◌}
use version_aware_code_mcp.Provider.{GraphProvider, TraceRequest, Direction, CallGraph, CallEdge}
use version_aware_code_mcp.Evidence.{Evidence}
use version_aware_code_mcp.Engine.{Engine, depth_out_of_range, require, in_one_member, no_answer}
use version_aware_code_mcp.Engine.Trace.{edge_at, cite_edges}
use version_aware_code_mcp.Engine.Compare.{
  ComparisonSide, SymbolPresence, presence_both, presence_to_only, presence_from_only,
  member_to_compare,
}

pub record CompareCallsRequest : Type 0 where
  pub from_context : Text
  pub to_context : Text
  pub repository : Text
  pub symbol : Text
  pub direction : Direction
  pub depth : ℤ

-- The identity that a call is compared by, without its line.
pub record Relation : Type 0 where
  pub caller : Text
  pub callee : Text
  pub path : Text

pub record CallRelation : Type 0 where
  pub caller : Text
  pub callee : Text
  pub path : Text
  pub from_evidence : List Evidence
  pub to_evidence : List Evidence

-- Go's `==` on the struct
unfoldable pub relation_eq : Relation → Relation → Bool
relation_eq a b = text_eq a.caller b.caller && text_eq a.callee b.callee && text_eq a.path b.path

abbrev pub relation_of : CallEdge → Relation
relation_of edge = record { caller = edge.caller; callee = edge.callee; path = edge.path }

-- `map[relation][]evidence.Evidence`
abbrev pub Sites : Type 0
Sites = List (Relation × List Evidence)

unfoldable pub sites_at : Relation → Sites → Option (List Evidence)
sites_at key [] = none
sites_at key ((k, cites) ∷ rest) = if relation_eq k key then some cites else sites_at key rest

-- `sites[key] = append(sites[key], site)`
unfoldable pub add_site : Relation → Evidence → Sites → Sites
add_site key site [] = (key, site ∷ []) ∷ []
add_site key site ((k, cites) ∷ rest) =
    if relation_eq k key
    then (k, cites ++ site ∷ []) ∷ rest
    else (k, cites) ∷ add_site key site rest

abbrev pub order_after : Option (List Evidence) → Relation → List Relation → List Relation
order_after none key order = order ++ key ∷ []
order_after (some _) key order = order

-- The loop of `group`.
unfoldable pub group_from : Sites → List Relation → List CallEdge → Sites × List Relation
unfolding sites_at add_site relation_eq
group_from sites order [] = (sites, order)
group_from sites order (edge ∷ rest) =
    group_from (add_site (relation_of edge) (edge_at edge) sites)
      (order_after (sites_at (relation_of edge) sites) (relation_of edge) order) rest

-- `group`: an absent graph groups to nothing.
unfoldable pub group : Option CallGraph → Sites × List Relation
unfolding group_from
group none = ([], [])
group (some graph) = group_from [] [] graph.edges

pub record Classes : Type 0 where
  pub added : List CallRelation
  pub removed : List CallRelation
  pub unchanged : List CallRelation

abbrev pub sites_or_nil : Option (List Evidence) → List Evidence
sites_or_nil none = []
sites_or_nil (some cites) = cites

abbrev pub call_relation : Relation → Option (List Evidence) → Option (List Evidence) → CallRelation
call_relation key from to = record {
  caller = key.caller;
  callee = key.callee;
  path = key.path;
  from_evidence = sites_or_nil from;
  to_evidence = sites_or_nil to;
}

-- The switch: in both, in `from` only, and else.
unfoldable pub classify :
    Relation → Option (List Evidence) → Option (List Evidence) → Classes → Classes
classify key (some f) (some t) c = record c {
  unchanged = c.unchanged ++ call_relation key (some f) (some t) ∷ [];
}
classify key (some f) none c = record c {
  removed = c.removed ++ call_relation key (some f) none ∷ [];
}
classify key none to c = record c { added = c.added ++ call_relation key none to ∷ [] }

-- The loop over the keys, with `seen` as it grows.
unfoldable pub classify_from : Sites → Sites → List Relation → List Relation → Classes → Classes
unfolding classify sites_at relation_eq
classify_from from to seen [] c = c
classify_from from to seen (key ∷ rest) c =
    let skipped = classify_from from to seen rest c in
    let classified =
      classify_from from to (seen ++ key ∷ []) rest
        (classify key (sites_at key from) (sites_at key to) c) in
    if any (relation_eq key) seen then skipped else classified

abbrev pub no_classes : Classes
no_classes = record { added = []; removed = []; unchanged = [] }

-- What the comparison says of the relations, from the two graphs.
unfoldable pub classify_graphs : Option CallGraph → Option CallGraph → Classes
unfolding group classify_from
classify_graphs from to =
    let (from_sites, from_order) = group from in
    let (to_sites, to_order) = group to in
    classify_from from_sites to_sites [] (from_order ++ to_order) no_classes

pub record CompareCallsResult : Type 0 where
  pub from : ComparisonSide
  pub to : ComparisonSide
  pub requested : Text
  pub from_symbol : Text
  pub to_symbol : Text
  pub presence : SymbolPresence
  pub classes : Classes

-- How `traceSide` reads a failure: an absence, an ambiguity, or any other.
unfoldable pub side_failure : Text → Failure → Code → Details → Result (Option CallGraph)
side_failure side f symbol_not_found details = ok none
side_failure side f symbol_ambiguous details =
    err (Vacerr.new symbol_ambiguous (details ++ (codes "side", Vacerr.text side) ∷ []))
side_failure side f _ details = err f

abbrev pub side_of_error : Text → Failure → Option Vacerr → Result (Option CallGraph)
side_of_error side f none = err f
side_of_error side f (some e) = side_failure side f e.code e.details

unfoldable pub side_result : Text → Result CallGraph → Result (Option CallGraph)
unfolding side_failure
side_result side (ok graph) = ok (some graph)
side_result side (err f) = side_of_error side f (as_vacerr f)

abbrev pub symbol_details : CompareCallsRequest → Details
symbol_details req =
    (codes "from_context", Vacerr.text req.from_context)
    ∷ (codes "to_context", Vacerr.text req.to_context)
    ∷ (codes "symbol", Vacerr.text req.symbol)
    ∷ []

abbrev pub side_of_graph : CodeContext → Option CallGraph → ComparisonSide
side_of_graph c none = no_answer
side_of_graph c (some graph) = in_one_member c (cite_edges graph.edges)

abbrev pub symbol_of_graph : Option CallGraph → Text
symbol_of_graph none = []
symbol_of_graph (some graph) = graph.symbol

unfoldable pub presence_of : Option CallGraph → Option CallGraph → Option SymbolPresence
presence_of none none = none
presence_of none (some _) = some presence_to_only
presence_of (some _) none = some presence_from_only
presence_of (some _) (some _) = some presence_both

unfoldable pub compared :
    CompareCallsRequest
    → CodeContext
    → CodeContext
    → Option CallGraph
    → Option CallGraph
    → Option SymbolPresence
    → Result CompareCallsResult
unfolding classify_graphs cite_edges
compared req from to from_graph to_graph none =
    err (Vacerr.new symbol_not_found (symbol_details req))
compared req from to from_graph to_graph (some presence) = ok (record {
  from = side_of_graph from from_graph;
  to = side_of_graph to to_graph;
  requested = req.symbol;
  from_symbol = symbol_of_graph from_graph;
  to_symbol = symbol_of_graph to_graph;
  presence = presence;
  classes = classify_graphs from_graph to_graph;
})

abbrev pub side_request : CompareCallsRequest → TraceRequest
side_request req = record { symbol = req.symbol; direction = req.direction; depth = req.depth }

module _ {W : Type 0} where
  unfoldable pub trace_side :
      GraphProvider W → CodeContext → TraceRequest → Text → Effect W (Option CallGraph)
  unfolding side_result
  trace_side p c req side w = let (r, w') = p.trace_calls c req w in (side_result side r, w')

  unfoldable pub compare_graphs :
      GraphProvider W
      → CompareCallsRequest
      → CodeContext
      → CodeContext
      → Effect W CompareCallsResult
  unfolding trace_side compared presence_of
  compare_graphs p req from to =
      lift (require req.from_context (codes "graph_ref") from.graph_ref)
      >> (lift (require req.to_context (codes "graph_ref") to.graph_ref)
          >> (trace_side p from (side_request req) (codes "from") >>= λ from_graph.
              trace_side p to (side_request req) (codes "to") >>= λ to_graph.
              lift (compared req from to from_graph to_graph (presence_of from_graph to_graph))))

  unfoldable pub compare_with :
      Option (GraphProvider W)
      → CompareCallsRequest
      → CodeContext
      → CodeContext
      → Effect W CompareCallsResult
  unfolding compare_graphs
  compare_with none req from to = fail (Vacerr.new graph_provider_unavailable (symbol_details req))
  compare_with (some p) req from to = compare_graphs p req from to

  unfoldable pub compare_members :
      Engine W → CompareCallsRequest → CodeContext → CodeContext → Effect W CompareCallsResult
  unfolding compare_with
  compare_members e req from to w =
      if text_eq from.repository to.repository
      then compare_with e.graph req from to w
      else fail
          (Vacerr.new invalid_argument (
            (codes "from_context", Vacerr.text req.from_context)
            ∷ (codes "to_context", Vacerr.text req.to_context)
            ∷ (codes "from_repository", Vacerr.text from.repository)
            ∷ (codes "to_repository", Vacerr.text to.repository)
            ∷ (codes "symbol", Vacerr.text req.symbol)
            ∷ []))
          w

  unfoldable pub compare_calls : Engine W → CompareCallsRequest → Effect W CompareCallsResult
  unfolding compare_members member_to_compare depth_out_of_range
  compare_calls e req w =
      if depth_out_of_range req.depth
      then fail
          (Vacerr.new invalid_argument (
            (codes "from_context", Vacerr.text req.from_context)
            ∷ (codes "to_context", Vacerr.text req.to_context)
            ∷ (codes "symbol", Vacerr.text req.symbol)
            ∷ (codes "depth", Vacerr.number req.depth)
            ∷ []))
          w
      else (member_to_compare e (codes "from") req.from_context req.repository >>= λ from.
            member_to_compare e (codes "to") req.to_context req.repository >>= λ to.
            compare_members e req from to)
          w
