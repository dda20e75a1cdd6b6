-- ===== src/Engine/Trace/Citations.antt =====
-- A walk is answered in one member and one graph, and cites each call site once.
use version_aware_code_mcp.Prelude.{
  ◌≤ℤ◌, List, [], ◌∷◌, ◌++◌, Option, none, some, true, false, ◌≡◌, ◌⊎◌, inl, inr, refl, sym, ◌∙◌,
  ap, subst, arith, any, In, In-append, In-append_left, In-append_right, Distinct,
  Distinct-append_one, any→In, not-In_of_any, Bool-cases, is_blank, if◌then◌else◌, codes,
}
use version_aware_code_mcp.Vacerr.{Failure}
use version_aware_code_mcp.Vacctx.{CodeContext, Workspace}
use version_aware_code_mcp.Effect.{Result, ok, err, Effect, both, bind-eq-ok, lift-bind-eq-ok}
use version_aware_code_mcp.Evidence.{Evidence, evidence_eq, evidence_eq_iff}
use version_aware_code_mcp.Provider.{GraphProvider, CallEdge}
use version_aware_code_mcp.Engine.{Engine, min_depth, max_depth, depth_out_of_range, require}
use version_aware_code_mcp.Engine.Scope.{IsScope, narrow-ok, pure-eq, depth_in_range, require-ok}
use version_aware_code_mcp.Engine.Trace.{
  TraceCallsRequest, TraceCallsResult, edge_at, cite_from, cite_edges, trace_request, trace_with,
  map_failure, on_failure, in_repository, trace_member, trace_calls,
}

-- `x` is where some edge of the list is.
abbrev pub EdgeAt : Evidence → List CallEdge → Type 0
EdgeAt x edges = (edge : CallEdge) × In edge edges × (x ≡ edge_at edge)

cite_from_sound :
    (acc : List Evidence) (edges : List CallEdge) (x : Evidence)
    → In x (cite_from acc edges)
    → In x acc ⊎ EdgeAt x edges
unfolding cite_from
cite_from_sound acc [] x i = inl i
cite_from_sound acc (edge ∷ rest) x i = elim (Bool-cases (any (evidence_eq (edge_at edge)) acc)) [
  | inl seen ↦ elim (cite_from_sound acc rest x (rw seen at i)) [
    | inl old ↦ inl old
    | inr (e, k, p) ↦ inr (e, inr k, p)
  ]
  | inr new ↦ elim (cite_from_sound (acc ++ edge_at edge ∷ []) rest x (rw new at i)) [
    | inl old ↦ elim (In-append x acc (edge_at edge ∷ []) old) [
      | inl k ↦ inl k
      | inr (inl p) ↦ inr (edge, inl refl, p)
      | inr (inr k) ↦ absurd k.1
    ]
    | inr (e, k, p) ↦ inr (e, inr k, p)
  ]
]

cite_from-keeps :
    (acc : List Evidence) (edges : List CallEdge) (x : Evidence)
    → In x acc
    → In x (cite_from acc edges)
unfolding cite_from
cite_from-keeps acc [] x i = i
cite_from-keeps acc (edge ∷ rest) x i = elim (Bool-cases (any (evidence_eq (edge_at edge)) acc)) [
  | inl seen ↦ rw seen (cite_from-keeps acc rest x i)
  | inr new ↦ rw new (
      cite_from-keeps (acc ++ edge_at edge ∷ []) rest x
        (In-append_left x acc (edge_at edge ∷ []) i))
]

cite_from_complete :
    (acc : List Evidence) (edges : List CallEdge) (edge : CallEdge)
    → In edge edges
    → In (edge_at edge) (cite_from acc edges)
unfolding cite_from
cite_from_complete acc [] edge i = absurd i.1
cite_from_complete acc (e ∷ rest) edge (inr i) =
    cite_from_complete (if any (evidence_eq (edge_at e)) acc then acc else acc ++ edge_at e ∷ [])
      rest edge i
cite_from_complete acc (e ∷ rest) edge (inl p) =
    subst (λ x. In (edge_at x) (cite_from acc (e ∷ rest))) (sym p)
      (first (Bool-cases (any (evidence_eq (edge_at e)) acc)))
  where
    first :
        (any (evidence_eq (edge_at e)) acc ≡ true) ⊎ (any (evidence_eq (edge_at e)) acc ≡ false)
        → In (edge_at e) (cite_from acc (e ∷ rest))
    first (inl seen) = rw seen (
        cite_from-keeps acc rest (edge_at e)
          (any→In evidence_eq evidence_eq_iff (edge_at e) acc seen))
    first (inr new) = rw new (
        cite_from-keeps (acc ++ edge_at e ∷ []) rest (edge_at e)
          (In-append_right (edge_at e) acc (edge_at e ∷ []) (inl refl)))

cite_from-Distinct :
    (acc : List Evidence) (edges : List CallEdge) → Distinct acc → Distinct (cite_from acc edges)
unfolding cite_from
cite_from-Distinct acc [] d = d
cite_from-Distinct acc (edge ∷ rest) d = elim (Bool-cases (any (evidence_eq (edge_at edge)) acc)) [
  | inl seen ↦ rw seen (cite_from-Distinct acc rest d)
  | inr new ↦ rw new (
      cite_from-Distinct (acc ++ edge_at edge ∷ []) rest (
        Distinct-append_one acc (edge_at edge) d
          (not-In_of_any evidence_eq evidence_eq_iff (edge_at edge) acc new)))
]

-- The citations of a walk: each place where an edge was written, and each once.
pub record IsCiting (edges : List CallEdge) (citations : List Evidence) : Type 0 where
  pub sound : (x : Evidence) → In x citations → EdgeAt x edges
  pub complete : (edge : CallEdge) → In edge edges → In (edge_at edge) citations
  pub distinct : Distinct citations

pub cite_edges-IsCiting : (edges : List CallEdge) → IsCiting edges (cite_edges edges)
unfolding cite_edges
cite_edges-IsCiting edges = record {
  sound = λ x i. elim (cite_from_sound [] edges x i) [ inl k ↦ absurd k.1 | inr found ↦ found ];
  complete = cite_from_complete [] edges;
  distinct = cite_from-Distinct [] edges tt;
}

on_failure-ok :
    {W A : Type 0} (g : Failure → Failure) (m : Effect W A) (w : W) {a : A} {v : W}
    → on_failure g m w ≡ (ok a, v)
    → m w ≡ (ok a, v)
on_failure-ok {W} {A} g m w {a} {v} h = go (m w) refl (ap (λ x. x.0) h) (ap (λ x. x.1) h)
  where
    go : (r : Result A × W) → m w ≡ r → map_failure g r.0 ≡ ok a → r.1 ≡ v → m w ≡ (ok a, v)
    go (ok b, u) e p q = e ∙ both (ground arith) q
    go (err f, u) e p q = absurd (cc)

module _ {W : Type 0} (e : Engine W) (req : TraceCallsRequest) where
  -- Where a walk answers.
  pub record IsTraced (w u : W) (r : TraceCallsResult) : Type 0 where
    pub depth : (min_depth ≤ℤ req.depth) × (req.depth ≤ℤ max_depth)
    pub provider : GraphProvider W
    pub installed : e.graph ≡ some provider
    pub workspace : Workspace
    pub member : CodeContext
    pub after : W
    pub scope : IsScope e req.context req.repository w after workspace (member ∷ [])
    pub graph_ref : is_blank member.graph_ref ≡ false
    pub walked : provider.trace_calls member (trace_request req) after ≡ (ok r.graph, u)
    pub answered : r.answer.workspace ≡ record { id = member.id; members = member ∷ [] }
    pub citations : List Evidence
    pub cited : r.answer.cited ≡ citations ∷ []
    pub citing : IsCiting r.graph.edges citations

  trace_with-IsTraced :
      (w v u : W) (ws : Workspace) (c : CodeContext) (r : TraceCallsResult)
      → (min_depth ≤ℤ req.depth) × (req.depth ≤ℤ max_depth)
      → IsScope e req.context req.repository w v ws (c ∷ [])
      → (g : Option (GraphProvider W)) → e.graph ≡ g
      → trace_with g req c v ≡ (ok r, u)
      → IsTraced w u r
  unfolding trace_with
  trace_with-IsTraced w v u ws c r d scope none i k = absurd (cc (ap (λ x. x.0) k))
  trace_with-IsTraced w v u ws c r d scope (some p) i k =
      let (t, ref, rest) =
        lift-bind-eq-ok (require req.context (codes "graph_ref") c.graph_ref) _ v k in
      let (graph, v', walk, last) =
        bind-eq-ok (on_failure (in_repository c.repository) (p.trace_calls c (trace_request req))) _
          v rest in
      pure-eq (λ x y. IsTraced w y x) last
        (record {
          depth = d;
          provider = p;
          installed = i;
          workspace = ws;
          member = c;
          after = v;
          scope = scope;
          graph_ref = require-ok req.context (codes "graph_ref") c.graph_ref ref;
          walked =
              on_failure-ok (in_repository c.repository) (p.trace_calls c (trace_request req)) v
                walk;
          answered = refl;
          citations = cite_edges graph.edges;
          cited = refl;
          citing = cite_edges-IsCiting graph.edges;
        })

  -- A walk that succeeds had a depth from 1 to 5 and one complete member with a graph, is what the
  -- provider answered for that member and the request, and cites every call site exactly once.
  pub trace_calls-IsTraced :
      (w u : W) (r : TraceCallsResult) → trace_calls e req w ≡ (ok r, u) → IsTraced w u r
  unfolding trace_calls trace_member
  trace_calls-IsTraced w u r h = elim (Bool-cases (depth_out_of_range req.depth)) [
    | inl bad ↦ absurd (cc (ap (λ x. x.0) (rw bad at h)))
    | inr good ↦
        let (c, v, narrowed, rest) = bind-eq-ok (trace_member e req) _ w (rw good at h) in
        let (ws, scope) = narrow-ok e req.context req.repository _ w v c narrowed in
        trace_with-IsTraced w v u ws c r (depth_in_range req.depth good) scope e.graph refl rest
  ]
