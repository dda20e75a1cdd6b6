-- ===== src/Cbm/Tracing/Walked.antt =====
-- What a trace has asked CBM, in which project, and what it answers.
use version_aware_code_mcp.Prelude.{
  Text, ℤ, pos, List, [], ◌∷◌, Option, none, some, Bool, true, false, ◌≡◌, ◌≢◌, inl, inr, refl, sym,
  ap, subst, ◌∙◌, arith, codes, text_eq, text_eq_iff, Bool-cases,
}
use version_aware_code_mcp.Vacctx.{CodeContext}
use version_aware_code_mcp.Effect.{ok, Effect, bind-eq-ok, lift-bind-eq-ok}
use version_aware_code_mcp.Provider.{TraceRequest, CallGraph}
use version_aware_code_mcp.Resolver.Resolution.{handle-cases}
use version_aware_code_mcp.Cbm.{
  Params, Rows, Traced, Reply, wrote, reported, failed, Backend, Node, decode, answered, in_project,
  search_params, run, search, nodes_of_groups,
}
use version_aware_code_mcp.Cbm.Tracing.{
  validate, only_candidate, set_hop, hops_from, cells_of_groups, reached, trace_params, nodes_from,
  edges, symbol_pattern, resolve, trace, names_pattern, locate, within, graph_of, trace_calls,
}

module _ {W : Type 0} (b : Backend W) (c : CodeContext) where
  within-ok :
      {A B : Type 0} (m : Effect W A) (k : A → Effect W B) (w u : W) (r : B)
      → within b m k w ≡ (ok r, u)
      → (a : A) × (v : W) × (m w ≡ (ok a, v)) × (k a v ≡ (ok r, u))
  within-ok m k w u r h = elim (handle-cases (m w) k _ h) [
    | inl (a, v, e, l) ↦ (a, v, e, l)
    | inr (f, v, e, l) ↦ absurd (cc (ap (λ x. x.0) l))
  ]

  -- A query that CBM answered, in the context's own graph.
  abbrev pub IsAsked : Text → Params → W → Text → W → Type 0
  IsAsked tool params w out u = b.call tool (in_project c params) w ≡ (wrote out, u)

  run-IsAsked :
      (tool : Text) (params : Params) (w u : W) (out : Text)
      → run b c tool params w ≡ (ok out, u)
      → IsAsked tool params w out u
  unfolding run
  run-IsAsked tool params w u out h =
      go (b.call tool (in_project c params) w).0 refl (ap (λ x. x.0) h) (ap (λ x. x.1) h)
    where
      go :
          (reply : Reply)
          → (b.call tool (in_project c params) w).0 ≡ reply
          → answered c tool reply ≡ ok out
          → (b.call tool (in_project c params) w).1 ≡ u
          → b.call tool (in_project c params) w ≡ (wrote out, u)
      go (wrote text) e k l =
          let same : text ≡ out = ground (arith, k) in λ i. ((e ∙ ap wrote same) i, l i)
      go (reported reason) e k l = absurd (cc)
      go (failed reason) e k l = absurd (cc)

  decode-ok :
      {A : Type 0} (tool : Text) (o : Option A) (a : A) → decode c tool o ≡ ok a → o ≡ some a
  decode-ok tool none a h = absurd (cc)
  decode-ok tool (some x) a h = ap some (ground (arith, h))

  -- The nodes that one query of the graph found.
  pub record IsFound (pattern : Text) (connected : Bool) (w u : W) (found : List Node)
      : Type 0 where
    pub out : Text
    pub asked : IsAsked (codes "search_graph") (search_params pattern connected) w out u
    pub body : Rows
    pub decoded : b.json.rows out ≡ some body
    pub read : nodes_of_groups b.json body.cols body.groups ≡ found

  search-IsFound :
      (pattern : Text) (connected : Bool) (w u : W) (found : List Node)
      → search b c pattern connected w ≡ (ok found, u)
      → IsFound pattern connected w u found
  unfolding search
  search-IsFound pattern connected w u found h =
      let (out, v, ran, rest) =
        bind-eq-ok (run b c (codes "search_graph") (search_params pattern connected)) _ w h in
      let (body, decoded, last) =
        lift-bind-eq-ok (decode c (codes "search_graph") (b.json.rows out)) _ v rest in
      record {
        out = out;
        asked =
            run-IsAsked (codes "search_graph") (search_params pattern connected) w v out ran
            ∙ ap (λ x. (wrote out, x.1)) last;
        body = body;
        decoded = decode-ok (codes "search_graph") (b.json.rows out) body decoded;
        read = ground (arith, ap (λ x. x.0) last);
      }

  only_candidate-ok :
      (symbol : Text) (found : List Node) (n : Node)
      → only_candidate c symbol found ≡ ok n
      → found ≡ n ∷ []
  only_candidate-ok symbol [] n h = absurd (cc)
  only_candidate-ok symbol (m ∷ []) n h = ap (λ x. x ∷ []) (ground (arith, h))
  only_candidate-ok symbol (m ∷ k ∷ rest) n h = absurd (cc)

  resolve-IsFound :
      (symbol : Text) (w u : W) (root : Node)
      → resolve b c symbol w ≡ (ok root, u)
      → IsFound (symbol_pattern b symbol) false w u (root ∷ [])
  unfolding resolve
  resolve-IsFound symbol w u root h =
      let (found, v, searched, last) =
        bind-eq-ok (search b c (symbol_pattern b symbol) false) _ w h in
      let one = only_candidate-ok symbol found root (ap (λ x. x.0) last) in
      subst (λ x. IsFound (symbol_pattern b symbol) false w x (root ∷ [])) (ap (λ x. x.1) last)
        (subst (IsFound (symbol_pattern b symbol) false w v) one
          (search-IsFound (symbol_pattern b symbol) false w v found searched))

  -- The hops that the walk from a node gave.
  pub record IsTraced (root : Node) (direction : Text) (depth : ℤ) (w u : W)
      (hops : List (Text × ℤ)) : Type 0 where
    pub out : Text
    pub asked : IsAsked (codes "trace_path") (trace_params root direction depth) w out u
    pub body : Traced
    pub decoded : b.json.traced out ≡ some body
    pub unambiguous : body.status ≢ codes "ambiguous"
    pub read :
        let rows = reached direction body in
        hops_from [] (cells_of_groups b.json rows.cols rows.groups) ≡ hops

  trace-IsTraced :
      (root : Node) (direction : Text) (depth : ℤ) (w u : W) (hops : List (Text × ℤ))
      → trace b c root direction depth w ≡ (ok hops, u)
      → IsTraced root direction depth w u hops
  unfolding trace
  trace-IsTraced root direction depth w u hops h =
      let (out, v, ran, rest) =
        bind-eq-ok (run b c (codes "trace_path") (trace_params root direction depth)) _ w h in
      let (body, decoded, last) =
        lift-bind-eq-ok (decode c (codes "trace_path") (b.json.traced out)) _ v rest in
      elim (Bool-cases (text_eq body.status (codes "ambiguous"))) [
        | inl bad ↦ absurd (cc (ap (λ x. x.0) (rw bad at last)))
        | inr good ↦ record {
          out = out;
          asked =
              run-IsAsked (codes "trace_path") (trace_params root direction depth) w v out ran
              ∙ ap (λ x. (wrote out, x.1)) last;
          body = body;
          decoded = decode-ok (codes "trace_path") (b.json.traced out) body decoded;
          unambiguous = λ p. absurd (cc ((text_eq_iff body.status (codes "ambiguous")).1 p));
          read = ground (arith, ap (λ x. x.0) (rw good at last));
        }
      ]

  -- How the graph follows from the hops: none without a hop, or the edges between the nodes that a
  -- second query located, with the root at hop 0.
  pub data IsGraph (req : TraceRequest) (root : Node) (hops : List (Text × ℤ)) (w u : W)
      (r : CallGraph) : Type 0 where
    alone : hops ≡ [] → r.edges ≡ [] → w ≡ u → IsGraph req root hops w u r
    linked :
        (found : List Node)
        → hops ≢ []
        → IsFound (names_pattern b (set_hop root.name (pos 0) hops)) true w u found
        → r.edges
          ≡ edges
              (set_hop root.name (pos 0) hops)
              (nodes_from (set_hop root.name (pos 0) hops) [] found)
              req.direction
        → IsGraph req root hops w u r

  graph_of-IsGraph :
      (req : TraceRequest) (root : Node) (hops : List (Text × ℤ)) (w u : W) (r : CallGraph)
      → graph_of b c req root hops w ≡ (ok r, u)
      → (r.symbol ≡ root.name) × IsGraph req root hops w u r
  unfolding locate
  graph_of-IsGraph req root [] w u r h =
      let same : record { symbol = root.name; edges = [] } ≡ r = ground (arith, ap (λ x. x.0) h) in
      (
        sym (ap (λ g. g.symbol) same),
        IsGraph.alone refl (sym (ap (λ g. g.edges) same)) (ap (λ x. x.1) h),
      )
  graph_of-IsGraph req root (hop ∷ rest) w u r h =
      let all = set_hop root.name (pos 0) (hop ∷ rest) in
      let (nodes, v, located, last) = within-ok (locate b c all) _ w u r h in
      let (found, v', searched, kept) =
        bind-eq-ok (search b c (names_pattern b all) true) _ w located in
      let same : record { symbol = root.name; edges = edges all nodes req.direction } ≡ r =
        ground (arith, ap (λ x. x.0) last) in
      let which : nodes_from all [] found ≡ nodes = ground (arith, ap (λ x. x.0) kept) in
      (
        sym (ap (λ g. g.symbol) same),
        IsGraph.linked found (λ e. cc)
            (subst (λ x. IsFound (names_pattern b all) true w x found)
              (ap (λ x. x.1) kept ∙ ap (λ x. x.1) last)
              (search-IsFound (names_pattern b all) true w v' found searched))
            (sym (ap (λ g. g.edges) same) ∙ ap (λ n. edges all n req.direction) (sym which)),
      )

  -- What a trace has done.
  pub record IsWalked (req : TraceRequest) (w u : W) (r : CallGraph) : Type 0 where
    pub direction : Text
    pub accepted : validate c req ≡ ok direction
    pub root : Node
    pub after : W
    pub one_candidate : IsFound (symbol_pattern b req.symbol) false w after (root ∷ [])
    pub hops : List (Text × ℤ)
    pub later : W
    pub traced : IsTraced root direction req.depth after later hops
    pub named : r.symbol ≡ root.name
    pub graph : IsGraph req root hops later u r

  -- A trace that succeeds asked the context's own graph only: its symbol, quoted and anchored, matched
  -- exactly one node; the walk from that node gave the hops; and the answer names the node, with the
  -- edges between the nodes located in one more query, or with none where the walk reached nothing.
  pub trace_calls-IsWalked :
      (req : TraceRequest) (w u : W) (r : CallGraph)
      → trace_calls b c req w ≡ (ok r, u)
      → IsWalked req w u r
  unfolding trace_calls
  trace_calls-IsWalked req w u r h =
      let (direction, accepted, rest) = lift-bind-eq-ok (validate c req) _ w h in
      let (root, v, resolved, next) = within-ok (resolve b c req.symbol) _ w u r rest in
      let (hops, v', traced, last) = within-ok (trace b c root direction req.depth) _ v u r next in
      let (named, graph) = graph_of-IsGraph req root hops v' u r last in
      record {
        direction = direction;
        accepted = accepted;
        root = root;
        after = v;
        one_candidate = resolve-IsFound req.symbol w v root resolved;
        hops = hops;
        later = v';
        traced = trace-IsTraced root direction req.depth v v' hops traced;
        named = named;
        graph = graph;
      }
