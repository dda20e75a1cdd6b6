-- ===== src/Engine/Calls/Sides.antt =====
-- The two sides of a comparison of calls: a version that lacks the symbol is an absent side, and
-- a version that could not be asked fails the comparison.
use version_aware_code_mcp.Prelude.{
  Text, ◌≤ℤ◌, Option, none, some, false, ◌≡◌, inl, inr, refl, ap, ◌∙◌, arith, codes, text_eq,
  text_eq_iff, is_blank, Bool-cases,
}
use version_aware_code_mcp.Vacerr.{Code, Failure, Vacerr, as_vacerr, symbol_not_found}
use version_aware_code_mcp.Vacctx.{CodeContext}
use version_aware_code_mcp.Effect.{ok, err, Result, both, bind-eq-ok, lift-bind-eq-ok}
use version_aware_code_mcp.Provider.{GraphProvider, CallGraph, TraceRequest}
use version_aware_code_mcp.Engine.{Engine, min_depth, max_depth, depth_out_of_range, require}
use version_aware_code_mcp.Engine.Scope.{pure-eq, depth_in_range, require-ok}
use version_aware_code_mcp.Engine.Compare.{
  SymbolPresence, presence_both, presence_to_only, presence_from_only, member_to_compare,
}
use version_aware_code_mcp.Engine.Compare.Changes.{AreSides, member_to_compare-ok}
use version_aware_code_mcp.Engine.Calls.{
  CompareCallsRequest, CompareCallsResult, side_failure, side_of_error, side_result, side_request,
  side_of_graph, symbol_of_graph, presence_of, compared, trace_side, compare_graphs, compare_with,
  compare_members, compare_calls,
}
use version_aware_code_mcp.Engine.Calls.Groups.{edges_of}
use version_aware_code_mcp.Engine.Calls.Partition.{IsPartition, classify_graphs-IsPartition}

-- How a version that was asked for the symbol came to be a side: it answered a graph, or it said
-- that it has no such symbol, and nothing else is an absence.
abbrev pub SideOf : Result CallGraph → Option CallGraph → Type 0
SideOf r (some graph) = r ≡ ok graph
SideOf r none =
    (f : Failure) × (e : Vacerr) × (r ≡ err f)
    × (as_vacerr f ≡ some e)
    × (e.code ≡ symbol_not_found)

side_failure-none :
    (side : Text) (f : Failure) (c : Code) (d : version_aware_code_mcp.Vacerr.Details)
    (g : Option CallGraph)
    → side_failure side f c d ≡ ok g
    → (c ≡ symbol_not_found) × (g ≡ none)
unfolding side_failure
side_failure-none side f symbol_not_found d g h = (refl, ground arith)
side_failure-none side f version_aware_code_mcp.Vacerr.symbol_ambiguous d g h = absurd (cc)
side_failure-none side f _ d g h = absurd (cc)

side_result-SideOf :
    (side : Text) (r : Result CallGraph) (g : Option CallGraph)
    → side_result side r ≡ ok g
    → SideOf r g
unfolding side_result
side_result-SideOf side (ok graph) (some g) h = ground arith
side_result-SideOf side (ok graph) none h = absurd (cc)
side_result-SideOf side (err f) g h = go (as_vacerr f) refl g h
  where
    go :
        (o : Option Vacerr)
        → as_vacerr f ≡ o
        → (g : Option CallGraph) → side_of_error side f o ≡ ok g
        → SideOf (err f) g
    go none e g k = absurd (cc)
    go (some v) e none k = (f, v, refl, e, (side_failure-none side f v.code v.details none k).0)
    go (some v) e (some graph) k =
        absurd (cc (side_failure-none side f v.code v.details (some graph) k).1)

module _ {W : Type 0} where
  trace_side-ok :
      (p : GraphProvider W) (c : CodeContext) (req : TraceRequest) (side : Text) (w u : W)
      (g : Option CallGraph)
      → trace_side p c req side w ≡ (ok g, u)
      → SideOf (p.trace_calls c req w).0 g × ((p.trace_calls c req w).1 ≡ u)
  unfolding trace_side
  trace_side-ok p c req side w u g h =
      (side_result-SideOf side (p.trace_calls c req w).0 g (ap (λ x. x.0) h), ap (λ x. x.1) h)

-- The presence that two sides have; absent from both, a symbol has none.
abbrev pub PresenceOf : Option CallGraph → Option CallGraph → SymbolPresence → Type 0
PresenceOf (some _) (some _) presence = presence ≡ presence_both
PresenceOf none (some _) presence = presence ≡ presence_to_only
PresenceOf (some _) none presence = presence ≡ presence_from_only
PresenceOf none none presence = Unit × ⊥

presence_of-PresenceOf :
    (from to : Option CallGraph) (presence : SymbolPresence)
    → presence_of from to ≡ some presence
    → PresenceOf from to presence
unfolding presence_of
presence_of-PresenceOf none none p h = absurd (cc)
presence_of-PresenceOf none (some t) p h = ground arith
presence_of-PresenceOf (some f) none p h = ground arith
presence_of-PresenceOf (some f) (some t) p h = ground arith

module _ {W : Type 0} (e : Engine W) (req : CompareCallsRequest) where
  -- What a comparison of one symbol's calls answers.
  pub record IsCompared (w u : W) (r : CompareCallsResult) : Type 0 where
    pub depth : (min_depth ≤ℤ req.depth) × (req.depth ≤ℤ max_depth)
    pub from : CodeContext
    pub to : CodeContext
    pub v : W
    pub sides : AreSides e req.from_context req.to_context req.repository w v from to
    pub same_repository : from.repository ≡ to.repository
    pub provider : GraphProvider W
    pub installed : e.graph ≡ some provider
    pub graph_refs : (is_blank from.graph_ref ≡ false) × (is_blank to.graph_ref ≡ false)
    pub from_graph : Option CallGraph
    pub to_graph : Option CallGraph
    pub between : W
    pub from_asked :
        SideOf (provider.trace_calls from (side_request req) v).0 from_graph
        × ((provider.trace_calls from (side_request req) v).1 ≡ between)
    pub to_asked :
        SideOf (provider.trace_calls to (side_request req) between).0 to_graph
        × ((provider.trace_calls to (side_request req) between).1 ≡ u)
    pub presence : PresenceOf from_graph to_graph r.presence
    pub from_answer : r.from ≡ side_of_graph from from_graph
    pub to_answer : r.to ≡ side_of_graph to to_graph
    pub symbols :
        (r.from_symbol ≡ symbol_of_graph from_graph) × (r.to_symbol ≡ symbol_of_graph to_graph)
    pub partition : IsPartition (edges_of from_graph) (edges_of to_graph) r.classes

  compare_graphs-IsCompared :
      (w v u : W) (from to : CodeContext) (r : CompareCallsResult)
      → (min_depth ≤ℤ req.depth) × (req.depth ≤ℤ max_depth)
      → AreSides e req.from_context req.to_context req.repository w v from to
      → from.repository ≡ to.repository
      → (p : GraphProvider W) → e.graph ≡ some p
      → compare_graphs p req from to v ≡ (ok r, u)
      → IsCompared w u r
  unfolding compare_graphs compared
  compare_graphs-IsCompared w v u from to r d sides same p i k =
      let (t, from_ref, k1) =
        lift-bind-eq-ok (require req.from_context (codes "graph_ref") from.graph_ref) _ v k in
      let (t', to_ref, k2) =
        lift-bind-eq-ok (require req.to_context (codes "graph_ref") to.graph_ref) _ v k1 in
      let (from_graph, b, from_asked, k3) =
        bind-eq-ok (trace_side p from (side_request req) (codes "from")) _ v k2 in
      let (to_graph, u', to_asked, k4) =
        bind-eq-ok (trace_side p to (side_request req) (codes "to")) _ b k3 in
      go from_graph b to_graph
        (require-ok req.from_context (codes "graph_ref") from.graph_ref from_ref)
        (require-ok req.to_context (codes "graph_ref") to.graph_ref to_ref)
        (trace_side-ok p from (side_request req) (codes "from") v b from_graph from_asked)
        (trace_side-ok p to (side_request req) (codes "to") b u to_graph
          (to_asked ∙ both refl (ap (λ x. x.1) k4)))
        (presence_of from_graph to_graph) refl (ap (λ x. x.0) k4)
    where
      go :
          (from_graph : Option CallGraph) (b : W) (to_graph : Option CallGraph)
          → is_blank from.graph_ref ≡ false
          → is_blank to.graph_ref ≡ false
          → SideOf (p.trace_calls from (side_request req) v).0 from_graph
            × ((p.trace_calls from (side_request req) v).1 ≡ b)
          → SideOf (p.trace_calls to (side_request req) b).0 to_graph
            × ((p.trace_calls to (side_request req) b).1 ≡ u)
          → (o : Option SymbolPresence) → presence_of from_graph to_graph ≡ o
          → compared req from to from_graph to_graph o ≡ ok r
          → IsCompared w u r
      go from_graph b to_graph first second first_run second_run none po m = absurd (cc)
      go from_graph b to_graph first second first_run second_run (some presence) po m =
          pure-eq (λ x y. IsCompared w u x) {w = u} {u = u} (both m refl)
            (record {
              depth = d;
              from = from;
              to = to;
              v = v;
              sides = sides;
              same_repository = same;
              provider = p;
              installed = i;
              graph_refs = (first, second);
              from_graph = from_graph;
              to_graph = to_graph;
              between = b;
              from_asked = first_run;
              to_asked = second_run;
              presence = presence_of-PresenceOf from_graph to_graph presence po;
              from_answer = refl;
              to_answer = refl;
              symbols = (refl, refl);
              partition = classify_graphs-IsPartition from_graph to_graph;
            })

  compare_with-IsCompared :
      (w v u : W) (from to : CodeContext) (r : CompareCallsResult)
      → (min_depth ≤ℤ req.depth) × (req.depth ≤ℤ max_depth)
      → AreSides e req.from_context req.to_context req.repository w v from to
      → from.repository ≡ to.repository
      → (g : Option (GraphProvider W)) → e.graph ≡ g
      → compare_with g req from to v ≡ (ok r, u)
      → IsCompared w u r
  unfolding compare_with
  compare_with-IsCompared w v u from to r d sides same none i k = absurd (cc (ap (λ x. x.0) k))
  compare_with-IsCompared w v u from to r d sides same (some p) i k =
      compare_graphs-IsCompared w v u from to r d sides same p i k

  -- A comparison of calls that succeeds asked one complete member of each context, both of the
  -- same repository and with a graph; a side is absent only where its version said that it has no
  -- such symbol, not both are absent, and the relations of the two graphs are partitioned.
  pub compare_calls-IsCompared :
      (w u : W) (r : CompareCallsResult) → compare_calls e req w ≡ (ok r, u) → IsCompared w u r
  unfolding compare_calls compare_members
  compare_calls-IsCompared w u r h = elim (Bool-cases (depth_out_of_range req.depth)) [
    | inl bad ↦ absurd (cc (ap (λ x. x.0) (rw bad at h)))
    | inr good ↦
        let (from, b, first, rest) =
          bind-eq-ok (member_to_compare e (codes "from") req.from_context req.repository) _ w
            (rw good at h) in
        let (to, v, second, rest') =
          bind-eq-ok (member_to_compare e (codes "to") req.to_context req.repository) _ b rest in
        let (from_ws, from_scope) =
          member_to_compare-ok e (codes "from") req.from_context req.repository w b from first in
        let (to_ws, to_scope) =
          member_to_compare-ok e (codes "to") req.to_context req.repository b v to second in
        let sides : AreSides e req.from_context req.to_context req.repository w v from to = record {
          from_workspace = from_ws;
          between = b;
          from_scope = from_scope;
          to_workspace = to_ws;
          to_scope = to_scope;
        } in
        elim (Bool-cases (text_eq from.repository to.repository)) [
          | inl same ↦
              compare_with-IsCompared w v u from to r (depth_in_range req.depth good) sides
                ((text_eq_iff from.repository to.repository).0 same) e.graph refl (rw same at rest')
          | inr differs ↦ absurd (cc (ap (λ x. x.0) (rw differs at rest')))
        ]
  ]
