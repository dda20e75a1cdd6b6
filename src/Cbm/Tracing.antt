-- ===== src/Cbm/Tracing.antt =====
-- TraceCalls of adapters/cbm/cbm.go: a symbol becomes one node, the walk from it gives hops, the nodes
-- it reached are located, and the calls between them are rebuilt. A Go map is a list with each key
-- once.
pub mod Hops
pub mod Edges
pub mod Located
pub mod Walked
use version_aware_code_mcp.Prelude.{
  ℕ, zero, suc, Text, ℤ, pos, negsuc, suc_ℤ, ltb_ℤ, eq_ℤ, List, [], ◌∷◌, ◌++◌, map, Option, none,
  some, Bool, true, false, if◌then◌else◌, codes, text_eq, text_leb, is_blank, join_on, sort_by,
}
use version_aware_code_mcp.Vacerr
use version_aware_code_mcp.Vacerr.{Failure, Candidate, symbol_not_found, symbol_ambiguous}
use version_aware_code_mcp.Vacctx.{CodeContext}
use version_aware_code_mcp.Effect.{Result, ok, err, Effect, pure, fail, lift, continue, ◌>>=◌}
use version_aware_code_mcp.Provider.{
  TraceRequest, Direction, callers, callees, CallEdge, CallGraph, GraphProvider,
}
use version_aware_code_mcp.Deadline.{override}
use version_aware_code_mcp.Config.{lookup}
use version_aware_code_mcp.Resolver.{handle}
use version_aware_code_mcp.Cbm.{
  Param, string, int, Params, Rows, Group, Traced, Json, Backend, Node, text_entry, invalid, text,
  number, or_default, decode, max_nodes, run, search,
}

abbrev pub symbol_details : CodeContext → Text → Vacerr.Details
symbol_details c symbol =
    text_entry (codes "context") c.id ∷ text_entry (codes "symbol") symbol ∷ []

-- `validate`: the direction's name for CBM.
abbrev pub direction_name : CodeContext → TraceRequest → Direction → Result Text
direction_name c req callers = ok (codes "inbound")
direction_name c req callees = ok (codes "outbound")
direction_name c req (Direction.other d) =
    err (invalid (symbol_details c req.symbol ++ text_entry (codes "direction") d ∷ []))

unfoldable pub validate : CodeContext → TraceRequest → Result Text
unfolding is_blank
validate c req =
    if is_blank c.graph_ref
    then err (invalid (text_entry (codes "context") c.id ∷ []))
    else if is_blank req.symbol
    then err (invalid (text_entry (codes "context") c.id ∷ []))
    else if ltb_ℤ req.depth (pos 1)
    then err
        (invalid (symbol_details c req.symbol ++ (codes "depth", Vacerr.number req.depth) ∷ []))
    else direction_name c req req.direction

abbrev pub graph_symbol : CodeContext → Text → Vacerr.Details
graph_symbol c symbol = symbol_details c symbol ++ text_entry (codes "graph_ref") c.graph_ref ∷ []

abbrev pub candidate_of : Node → Candidate
candidate_of n = record {
  qualified_name = n.qualified_name;
  name = n.name;
  label = n.label;
  path = n.path;
  line = n.line;
}

-- `ambiguous`
abbrev pub ambiguous : CodeContext → Text → List Node → Failure
ambiguous c symbol candidates = Vacerr.new symbol_ambiguous (
    graph_symbol c symbol
    ++ (codes "candidates", Vacerr.candidates (map candidate_of candidates)) ∷ [])

abbrev pub only_candidate : CodeContext → Text → List Node → Result Node
only_candidate c symbol [] = err (Vacerr.new symbol_not_found (graph_symbol c symbol))
only_candidate c symbol (n ∷ []) = ok n
only_candidate c symbol (n ∷ m ∷ rest) = err (ambiguous c symbol (n ∷ m ∷ rest))

-- `hops[name] = hop`
unfoldable pub set_hop : Text → ℤ → List (Text × ℤ) → List (Text × ℤ)
unfolding text_eq
set_hop name hop [] = (name, hop) ∷ []
set_hop name hop ((n, h) ∷ rest) =
    let later = set_hop name hop rest in if text_eq n name then (n, hop) ∷ rest else (n, h) ∷ later

-- A node that is found again keeps its shortest distance.
abbrev pub reach : Text → ℤ → List (Text × ℤ) → Option ℤ → List (Text × ℤ)
reach name hop hops none = set_hop name hop hops
reach name hop hops (some seen) = if ltb_ℤ hop seen then set_hop name hop hops else hops

unfoldable pub hops_from : List (Text × ℤ) → List (Text × ℤ) → List (Text × ℤ)
unfolding set_hop lookup
hops_from hops [] = hops
hops_from hops ((name, hop) ∷ rest) = hops_from (reach name hop hops (lookup name hops)) rest

module _ (json : Json) where
  abbrev pub cell_of : Option Text → Option ℤ → List (Text × ℤ)
  cell_of none hop = []
  cell_of (some name) hop = (name, or_default (pos 0) hop) ∷ []

  -- The name and the hop of each row; a row without a name is passed over.
  unfoldable pub cells_of_rows : List Text → List (List Text) → List (Text × ℤ)
  unfolding text number
  cells_of_rows cols [] = []
  cells_of_rows cols (row ∷ rest) =
      cell_of (text json cols row (codes "name")) (number json cols row (codes "hop"))
      ++ cells_of_rows cols rest

  unfoldable pub cells_of_groups : List Text → List Group → List (Text × ℤ)
  unfolding cells_of_rows
  cells_of_groups cols [] = []
  cells_of_groups cols (group ∷ rest) = cells_of_rows cols group.rows ++ cells_of_groups cols rest

abbrev pub reached : Text → Traced → Rows
reached direction body = if text_eq direction (codes "inbound") then body.callers else body.callees

abbrev pub trace_params : Node → Text → ℤ → Params
trace_params root direction depth =
    (codes "function_name", string root.qualified_name)
    ∷ (codes "direction", string direction)
    ∷ (codes "depth", int depth)
    ∷ (codes "limit", int max_nodes)
    ∷ []

-- The loop of `locate`: the first row of a name that the walk reached is kept.
abbrev pub keep_node : Node → List (Text × Node) → Option ℤ → Option Node → List (Text × Node)
keep_node n nodes none dup = nodes
keep_node n nodes (some hop) none = nodes ++ (n.name, n) ∷ []
keep_node n nodes (some hop) (some dup) = nodes

unfoldable pub nodes_from : List (Text × ℤ) → List (Text × Node) → List Node → List (Text × Node)
unfolding lookup
nodes_from hops nodes [] = nodes
nodes_from hops nodes (n ∷ rest) =
    nodes_from hops (keep_node n nodes (lookup n.name hops) (lookup n.name nodes)) rest

abbrev pub edge_between : Direction → Node → Node → CallEdge
edge_between callers from to = record {
  caller = to.name;
  callee = from.name;
  path = to.path;
  line = to.line;
}
edge_between _ from to = record {
  caller = from.name;
  callee = to.name;
  path = from.path;
  line = from.line;
}

-- The loops of `edges`.
module _ (hops : List (Text × ℤ)) (nodes : List (Text × Node)) (direction : Direction) where
  abbrev pub edge_to : ℤ → Node → Text → Option Node → List CallEdge
  edge_to hop from neighbour none = []
  edge_to hop from neighbour (some to) =
      if eq_ℤ (or_default (pos 0) (lookup neighbour hops)) (suc_ℤ hop)
      then edge_between direction from to ∷ []
      else []

  unfoldable pub edges_of : ℤ → Node → List Text → List CallEdge
  unfolding lookup
  edges_of hop from [] = []
  edges_of hop from (neighbour ∷ rest) =
      edge_to hop from neighbour (lookup neighbour nodes) ++ edges_of hop from rest

  abbrev pub edges_at : ℤ → Option Node → List CallEdge
  edges_at hop none = []
  edges_at hop (some from) = edges_of hop from from.connected

  unfoldable pub edges_from : List (Text × ℤ) → List CallEdge
  unfolding edges_of
  edges_from [] = []
  edges_from ((name, hop) ∷ rest) = edges_at hop (lookup name nodes) ++ edges_from rest

unfoldable pub edge_leb : CallEdge → CallEdge → Bool
unfolding text_eq text_leb
edge_leb a b =
    if text_eq a.caller b.caller then text_leb a.callee b.callee else text_leb a.caller b.caller

-- `edges`
unfoldable pub edges : List (Text × ℤ) → List (Text × Node) → Direction → List CallEdge
unfolding edges_from edge_leb sort_by
edges hops nodes direction = sort_by edge_leb (edges_from hops nodes direction hops)

abbrev pub names_of : List (Text × ℤ) → List Text
names_of [] = []
names_of ((name, hop) ∷ rest) = name ∷ names_of rest

module _ {W : Type 0} (b : Backend W) where
  abbrev pub symbol_pattern : Text → Text
  symbol_pattern symbol = codes "^" ++ (b.quote_meta symbol ++ codes "$")

  unfoldable pub resolve : CodeContext → Text → Effect W Node
  unfolding search
  resolve c symbol = search b c (symbol_pattern symbol) false >>= λ candidates.
      lift (only_candidate c symbol candidates)

  abbrev pub hops_of : CodeContext → Node → Text → Traced → Result (List (Text × ℤ))
  hops_of c root direction body =
      let rows = reached direction body in
      if text_eq body.status (codes "ambiguous")
      then err (Vacerr.new symbol_ambiguous (graph_symbol c root.name))
      else ok (hops_from [] (cells_of_groups b.json rows.cols rows.groups))

  unfoldable pub trace : CodeContext → Node → Text → ℤ → Effect W (List (Text × ℤ))
  unfolding run hops_from cells_of_groups text_eq
  trace c root direction depth =
      run b c (codes "trace_path") (trace_params root direction depth) >>= λ out.
      lift (decode c (codes "trace_path") (b.json.traced out)) >>= λ body.
      lift (hops_of c root direction body)

  abbrev pub names_pattern : List (Text × ℤ) → Text
  names_pattern hops =
      codes "^("
      ++ (join_on 124 (sort_by text_leb (map b.quote_meta (names_of hops))) ++ codes ")$")

  unfoldable pub locate : CodeContext → List (Text × ℤ) → Effect W (List (Text × Node))
  unfolding search nodes_from sort_by text_leb join_on
  locate c hops = search b c (names_pattern hops) true >>= λ found. pure (nodes_from hops [] found)

  -- An error of one of the steps, unless the time ran out.
  abbrev pub within : {A B : Type 0} → Effect W A → (A → Effect W B) → Effect W B
  within m k w = handle (m w) k (λ e v. fail (override (b.cause v) e) v)

  abbrev pub graph_of : CodeContext → TraceRequest → Node → List (Text × ℤ) → Effect W CallGraph
  graph_of c req root [] = pure (record { symbol = root.name; edges = [] })
  graph_of c req root (hop ∷ rest) =
      let hops = set_hop root.name (pos 0) (hop ∷ rest) in
      within (locate c hops)
        (λ nodes. pure (record { symbol = root.name; edges = edges hops nodes req.direction }))

  -- `TraceCalls`
  unfoldable pub trace_calls : CodeContext → TraceRequest → Effect W CallGraph
  unfolding validate resolve trace locate set_hop edges
  trace_calls c req = lift (validate c req) >>= λ direction.
      within (resolve c req.symbol)
        (λ root. within (trace c root direction req.depth) (λ hops. graph_of c req root hops))

  -- The adapter as the engine's graph provider; backend.go's `Close` is a parameter.
  abbrev pub graph_provider : Effect W (Unit {0}) → GraphProvider W
  graph_provider close = record { trace_calls = trace_calls; closer = some close }
