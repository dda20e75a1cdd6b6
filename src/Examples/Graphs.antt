-- ===== src/Examples/Graphs.antt =====
-- The CBM adapter over a graph of two functions, `f` calling `g`.
use version_aware_code_mcp.Prelude.{
  ℕ, suc, Text, ℤ, pos, List, [], ◌∷◌, none, some, codes, ◌↔◌, refl, if◌then◌else◌, ◌==◌, text_eq,
  length, atoi, In, IsSorted,
}
use version_aware_code_mcp.Vacctx.{CodeContext}
use version_aware_code_mcp.Provider.{TraceRequest, CallEdge, callees}
use version_aware_code_mcp.Config.{lookup}
use version_aware_code_mcp.Cbm.{Backend, Json, Rows, wrote, Node, line_range}
use version_aware_code_mcp.Cbm.Tracing.{edges, edge_leb, hops_from, trace_calls, nodes_from}
use version_aware_code_mcp.Cbm.Tracing.Hops.{IsShortest, hops_from-IsShortest}
use version_aware_code_mcp.Cbm.Tracing.Edges.{IsCall, edges_iff}
use version_aware_code_mcp.Cbm.Tracing.Walked.{IsWalked, trace_calls-IsWalked}
use version_aware_code_mcp.Examples.{member}

abbrev rows : List (List Text) → Rows
rows body = record {
  cols = codes "name" ∷ codes "lines" ∷ codes "hop" ∷ codes "connected" ∷ [];
  groups = record { qn_prefix = codes "p"; file = codes "a.go"; rows = body } ∷ [];
}

abbrev row_f : List Text
row_f = codes "f" ∷ codes "3-9" ∷ codes "0" ∷ codes "g" ∷ []

abbrev row_g : List Text
row_g = codes "g" ∷ codes "12-14" ∷ codes "1" ∷ codes "f" ∷ []

abbrev graph : Text → Rows
graph out = if text_eq out (codes "one") then rows (row_f ∷ []) else rows (row_f ∷ row_g ∷ [])

abbrev json : Json
json = record {
  rows = λ out. some (graph out);
  traced = λ out.
      some (record { status = []; message = []; callees = rows (row_g ∷ []); callers = rows [] });
  text = λ raw. some raw;
  number = atoi;
  texts = λ raw. raw ∷ [];
}

abbrev cbm : Backend ℕ
cbm = record {
  json = json;
  call = λ tool params n. (wrote (if length params == 4 then codes "one" else codes "both"), suc n);
  quote_meta = λ s. s;
  cause = λ n. none;
}

abbrev app : CodeContext
app = member (codes "v1") (codes "app") (codes "1") (codes "ga")

abbrev request : TraceRequest
request = record { symbol = codes "f"; direction = callees; depth = pos 2 }

abbrev call : CallEdge
call = record { caller = codes "f"; callee = codes "g"; path = codes "a.go"; line = pos 3 }

trace_calls-IsWalked_example :
    IsWalked cbm app request 0 3 (record { symbol = codes "f"; edges = call ∷ [] })
unfolding trace_calls lookup atoi line_range
trace_calls-IsWalked_example =
    trace_calls-IsWalked cbm app request 0 3 (record { symbol = codes "f"; edges = call ∷ [] }) refl

abbrev cells : List (Text × ℤ)
cells = (codes "g", pos 2) ∷ (codes "h", pos 1) ∷ (codes "g", pos 1) ∷ []

hops_from-IsShortest_example :
    IsShortest (codes "g") cells (lookup (codes "g") (hops_from [] cells))
hops_from-IsShortest_example = hops_from-IsShortest (codes "g") cells

abbrev node : Text → ℤ → Text → Node
node name at neighbour = record {
  name = name;
  qualified_name = name;
  label = [];
  path = codes "a.go";
  line = at;
  connected = neighbour ∷ [];
}

abbrev located : List Node
located = node (codes "f") (pos 3) (codes "g") ∷ node (codes "g") (pos 12) (codes "f") ∷ []

abbrev walked : List (Text × ℤ)
walked = (codes "f", pos 0) ∷ (codes "g", pos 1) ∷ []

edges_iff_example :
    IsSorted edge_leb (edges walked (nodes_from walked [] located) callees)
    × ((e : CallEdge)
        → In e (edges walked (nodes_from walked [] located) callees)
          ↔ IsCall walked (nodes_from walked [] located) callees walked e)
edges_iff_example = edges_iff walked (nodes_from walked [] located) callees
