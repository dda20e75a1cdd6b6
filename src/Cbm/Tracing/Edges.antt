-- ===== src/Cbm/Tracing/Edges.antt =====
-- The edges of a walk are the connections that cross one hop, cited at their caller.
use version_aware_code_mcp.Prelude.{
  Text, ℤ, pos, suc_ℤ, eq_ℤ, eq_ℤ_iff, List, [], ◌∷◌, Option, none, some, true, false, ◌≡◌, ◌↔◌,
  inl, inr, refl, sym, ap, subst, ◌∙◌, text_eq, text_eq_iff, text_leb-total, Bool-cases, In,
  In-append, In-append_left, In-append_right, IsSorted, In-sort_by, sort_by-IsSorted,
}
use version_aware_code_mcp.Provider.{Direction, CallEdge}
use version_aware_code_mcp.Config.{lookup}
use version_aware_code_mcp.Cbm.{Node, or_default}
use version_aware_code_mcp.Cbm.Tracing.{
  edge_between, edge_to, edges_of, edges_at, edges_from, edge_leb, edges,
}

edge_leb-total : (a b : CallEdge) → edge_leb a b ≡ false → edge_leb b a ≡ true
unfolding edge_leb
edge_leb-total a b h = elim (Bool-cases (text_eq a.caller b.caller)) [
  | inl e ↦
      let back : text_eq b.caller a.caller ≡ true =
        (text_eq_iff b.caller a.caller).1 (sym ((text_eq_iff a.caller b.caller).0 e)) in
      rw back (text_leb-total a.callee b.callee (rw e at h))
  | inr e ↦
      let back : text_eq b.caller a.caller ≡ false = apart e in
      rw back (text_leb-total a.caller b.caller (rw e at h))
]
  where
    apart : text_eq a.caller b.caller ≡ false → text_eq b.caller a.caller ≡ false
    apart e = elim (Bool-cases (text_eq b.caller a.caller)) [
      | inl f ↦
          absurd
            (cc ((text_eq_iff a.caller b.caller).1 (sym ((text_eq_iff b.caller a.caller).0 f))))
      | inr f ↦ f
    ]

module _ (hops : List (Text × ℤ)) (nodes : List (Text × Node)) (direction : Direction) where
  -- Two nodes that CBM calls connected, one hop apart.
  pub record IsStep (hop : ℤ) (from : Node) (e : CallEdge) : Type 0 where
    pub neighbour : Text
    pub connected : In neighbour from.connected
    pub to : Node
    pub located : lookup neighbour nodes ≡ some to
    pub next : or_default (pos 0) (lookup neighbour hops) ≡ suc_ℤ hop
    pub edge : e ≡ edge_between direction from to

  -- A connection that the walk crossed, from a node that it reached.
  pub record IsCall (reached : List (Text × ℤ)) (e : CallEdge) : Type 0 where
    pub name : Text
    pub hop : ℤ
    pub was_reached : In (name, hop) reached
    pub from : Node
    pub located_from : lookup name nodes ≡ some from
    pub step : IsStep hop from e

  In-edge_to :
      (hop : ℤ) (from : Node) (neighbour : Text) (o : Option Node) (e : CallEdge)
      → In e (edge_to hops nodes direction hop from neighbour o)
      → (to : Node) × (o ≡ some to)
        × (or_default (pos 0) (lookup neighbour hops) ≡ suc_ℤ hop)
        × (e ≡ edge_between direction from to)
  In-edge_to hop from neighbour none e i = absurd i.1
  In-edge_to hop from neighbour (some to) e i =
      elim (Bool-cases (eq_ℤ (or_default (pos 0) (lookup neighbour hops)) (suc_ℤ hop))) [
        | inl next ↦ elim (rw next at i) [
          | inl p ↦ (
            to,
            refl,
            (eq_ℤ_iff (or_default (pos 0) (lookup neighbour hops)) (suc_ℤ hop)).0 next,
            p,
          )
          | inr j ↦ absurd j.1
        ]
        | inr other ↦ absurd ((rw other at i).1)
      ]

  edges_of-IsStep :
      (hop : ℤ) (from : Node) (e : CallEdge) (connected : List Text)
      → In e (edges_of hops nodes direction hop from connected)
      → (neighbour : Text) × In neighbour connected
        × (to : Node) × (lookup neighbour nodes ≡ some to)
        × (or_default (pos 0) (lookup neighbour hops) ≡ suc_ℤ hop)
        × (e ≡ edge_between direction from to)
  unfolding edges_of
  edges_of-IsStep hop from e [] i = absurd i.1
  edges_of-IsStep hop from e (n ∷ rest) i =
      elim (In-append e (edge_to hops nodes direction hop from n (lookup n nodes)) _ i) [
        | inl j ↦
            let (to, located, next, edge) = In-edge_to hop from n (lookup n nodes) e j in
            (n, inl refl, to, located, next, edge)
        | inr j ↦
            let (m, k, to, located, next, edge) = edges_of-IsStep hop from e rest j in
            (m, inr k, to, located, next, edge)
      ]

  edges_of-complete :
      (hop : ℤ) (from : Node) (e : CallEdge) (neighbour : Text) (to : Node) (connected : List Text)
      → In neighbour connected
      → lookup neighbour nodes ≡ some to
      → or_default (pos 0) (lookup neighbour hops) ≡ suc_ℤ hop
      → e ≡ edge_between direction from to
      → In e (edges_of hops nodes direction hop from connected)
  unfolding edges_of
  edges_of-complete hop from e neighbour to [] i l n p = absurd i.1
  edges_of-complete hop from e neighbour to (m ∷ rest) (inl q) l n p =
      let next : eq_ℤ (or_default (pos 0) (lookup m hops)) (suc_ℤ hop) ≡ true =
        (eq_ℤ_iff (or_default (pos 0) (lookup m hops)) (suc_ℤ hop)).1
          (subst (λ x. or_default (pos 0) (lookup x hops) ≡ suc_ℤ hop) q n) in
      let there : lookup m nodes ≡ some to = subst (λ x. lookup x nodes ≡ some to) q l in
      In-append_left e (edge_to hops nodes direction hop from m (lookup m nodes)) _
        (rw (there, next) (inl p))
  edges_of-complete hop from e neighbour to (m ∷ rest) (inr j) l n p =
      In-append_right e (edge_to hops nodes direction hop from m (lookup m nodes)) _
        (edges_of-complete hop from e neighbour to rest j l n p)

  edges_from-IsCall :
      (e : CallEdge) (reached : List (Text × ℤ))
      → In e (edges_from hops nodes direction reached)
      → IsCall reached e
  unfolding edges_from
  edges_from-IsCall e [] i = absurd i.1
  edges_from-IsCall e ((name, hop) ∷ rest) i =
      elim (In-append e (edges_at hops nodes direction hop (lookup name nodes)) _ i) [
        | inl j ↦ here (lookup name nodes) refl j
        | inr j ↦
            let r = edges_from-IsCall e rest j in
            record {
              name = r.name;
              hop = r.hop;
              was_reached = inr r.was_reached;
              from = r.from;
              located_from = r.located_from;
              step = r.step;
            }
      ]
    where
      here :
          (o : Option Node)
          → lookup name nodes ≡ o
          → In e (edges_at hops nodes direction hop o)
          → IsCall ((name, hop) ∷ rest) e
      here none l j = absurd j.1
      here (some from) l j =
          let (neighbour, connected, to, located, next, edge) =
            edges_of-IsStep hop from e from.connected j in
          record {
            name = name;
            hop = hop;
            was_reached = inl refl;
            from = from;
            located_from = l;
            step = record {
              neighbour = neighbour;
              connected = connected;
              to = to;
              located = located;
              next = next;
              edge = edge;
            };
          }

  edges_from-complete :
      (e : CallEdge) (name : Text) (hop : ℤ) (from : Node) (reached : List (Text × ℤ))
      → In (name, hop) reached
      → lookup name nodes ≡ some from
      → IsStep hop from e
      → In e (edges_from hops nodes direction reached)
  unfolding edges_from
  edges_from-complete e name hop from [] i l s = absurd i.1
  edges_from-complete e name hop from ((n, h) ∷ rest) (inl q) l s =
      let there : lookup n nodes ≡ some from = subst (λ x. lookup x.0 nodes ≡ some from) q l in
      let same : hop ≡ h = ap (λ x. x.1) q in
      In-append_left e (edges_at hops nodes direction h (lookup n nodes)) _ (
        rw there (
          edges_of-complete h from e s.neighbour s.to from.connected s.connected s.located
            (s.next ∙ ap suc_ℤ same) s.edge))
  edges_from-complete e name hop from ((n, h) ∷ rest) (inr j) l s =
      In-append_right e (edges_at hops nodes direction h (lookup n nodes)) _
        (edges_from-complete e name hop from rest j l s)

  -- The edges of a walk are, in the order of caller and callee, exactly the connections from a node
  -- that was reached at some hop to one that was reached at the next, both located; the caller is
  -- the first on an outbound walk and the second on an inbound one, and is where the call is cited.
  pub edges_iff :
      IsSorted edge_leb (edges hops nodes direction)
      × ((e : CallEdge) → In e (edges hops nodes direction) ↔ IsCall hops e)
  unfolding edges
  edges_iff = (
    sort_by-IsSorted edge_leb edge_leb-total (edges_from hops nodes direction hops),
    λ e. (
      λ i.
          edges_from-IsCall e hops
            ((In-sort_by edge_leb e (edges_from hops nodes direction hops)).0 i),
      λ c.
          (In-sort_by edge_leb e (edges_from hops nodes direction hops)).1
            (edges_from-complete e c.name c.hop c.from hops c.was_reached c.located_from c.step),
    ),
  )
