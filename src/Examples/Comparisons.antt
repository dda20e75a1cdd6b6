-- ===== src/Examples/Comparisons.antt =====
-- The comparisons of two versions, run.
use version_aware_code_mcp.Prelude.{
  ℕ, pos, List, [], ◌∷◌, codes, refl, none, some, Option, is_blank, false,
}
use version_aware_code_mcp.Vacctx.{CodeContext}
use version_aware_code_mcp.Evidence.{Evidence, at, evidence_eq}
use version_aware_code_mcp.Provider.{callees, CallGraph}
use version_aware_code_mcp.Engine
use version_aware_code_mcp.Engine.{Engine, resolve, in_one_member}
use version_aware_code_mcp.Engine.Compare.{
  CompareCodeRequest, CompareCodeResult, compare_code, code_modified, presence_both,
}
use version_aware_code_mcp.Engine.Compare.Changes.{IsDiffed, compare_code-IsDiffed}
use version_aware_code_mcp.Engine.Calls.{
  CompareCallsRequest, CompareCallsResult, CallRelation, compare_calls, classify_graphs,
}
use version_aware_code_mcp.Engine.Calls.Groups.{edges_of}
use version_aware_code_mcp.Engine.Calls.Partition.{IsPartition, classify_graphs-IsPartition}
use version_aware_code_mcp.Engine.Calls.Sides.{IsCompared, compare_calls-IsCompared}
use version_aware_code_mcp.Resolver
use version_aware_code_mcp.Resolver.{source}
use version_aware_code_mcp.Config.{lookup}
use version_aware_code_mcp.Examples.{engine, member, edge}

abbrev app_from : CodeContext
app_from = member (codes "v1") (codes "app") (codes "1") (codes "ga")

abbrev app_to : CodeContext
app_to = member (codes "v2") (codes "app") (codes "3") (codes "gb")

abbrev code_request : CompareCodeRequest
code_request = record {
  from_context = codes "v1";
  to_context = codes "v2";
  repository = codes "app";
  path = codes "f";
}

abbrev diffed : CompareCodeResult
diffed = record {
  from = in_one_member app_from [];
  to = in_one_member app_to [];
  path = codes "f";
  change = code_modified;
  hunks = [];
  binary = false;
}

compare_code-IsDiffed_example : IsDiffed engine code_request 0 4 diffed
unfolding compare_code source is_blank resolve Resolver.resolve lookup Engine.select_from
    Engine.single
compare_code-IsDiffed_example = compare_code-IsDiffed engine code_request 0 4 diffed refl

abbrev calls_request : CompareCallsRequest
calls_request = record {
  from_context = codes "v1";
  to_context = codes "v2";
  repository = codes "app";
  symbol = codes "g";
  direction = callees;
  depth = pos 2;
}

abbrev site : List Evidence
site = at (codes "f") (pos 7) (pos 7) [] ∷ []

abbrev call : List ℕ → List Evidence → List Evidence → CallRelation
call name from to = record {
  caller = name;
  callee = codes "g";
  path = codes "f";
  from_evidence = from;
  to_evidence = to;
}

abbrev compared_calls : CompareCallsResult
compared_calls = record {
  from = in_one_member app_from site;
  to = in_one_member app_to site;
  requested = codes "g";
  from_symbol = codes "g";
  to_symbol = codes "g";
  presence = presence_both;
  classes = record {
    added = call (codes "3") [] site ∷ [];
    removed = call (codes "1") site [] ∷ [];
    unchanged = call (codes "h") site site ∷ [];
  };
}

compare_calls-IsCompared_example : IsCompared engine calls_request 0 5 compared_calls
unfolding compare_calls source is_blank resolve Resolver.resolve lookup Engine.select_from
    Engine.single evidence_eq
compare_calls-IsCompared_example =
    compare_calls-IsCompared engine calls_request 0 5 compared_calls refl

abbrev some_graph : Option CallGraph
some_graph = some (record { symbol = codes "g"; edges = edge (codes "a") ∷ edge (codes "a") ∷ [] })

classify_graphs-IsPartition_example :
    IsPartition (edges_of none) (edges_of some_graph) (classify_graphs none some_graph)
classify_graphs-IsPartition_example = classify_graphs-IsPartition none some_graph
