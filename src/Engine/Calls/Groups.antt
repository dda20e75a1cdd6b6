-- ===== src/Engine/Calls/Groups.antt =====
-- What `group` holds: for each relation its call sites in order, and each relation that has one.
use version_aware_code_mcp.Prelude.{
  List, [], ◌∷◌, ◌++◌, map, Option, none, some, Bool, true, false, ◌≡◌, ◌≢◌, ◌⊎◌, ◌↔◌, inl, inr,
  refl, sym, ap, subst, ◌∙◌, arith, any, keep, In, In-append, In-append_left, In-append_right,
  Bool-cases, text_eq_iff, append-nil, append_assoc, if◌then◌else◌,
}
use version_aware_code_mcp.Evidence.{Evidence}
use version_aware_code_mcp.Provider.{CallGraph, CallEdge}
use version_aware_code_mcp.Engine.Trace.{edge_at}
use version_aware_code_mcp.Engine.Calls.{
  Relation, relation_eq, relation_of, Sites, sites_at, add_site, order_after, group_from, group,
}

pub relation_eq_iff : (a b : Relation) → (relation_eq a b ≡ true) ↔ (a ≡ b)
unfolding relation_eq
relation_eq_iff a b =
    ground (
      arith,
      text_eq_iff a.caller b.caller,
      text_eq_iff a.callee b.callee,
      text_eq_iff a.path b.path,
    )

abbrev pub is_call : Relation → CallEdge → Bool
is_call key edge = relation_eq (relation_of edge) key

-- Where the edges write the relation `key`, in their order, with repetitions.
abbrev pub sites_in : Relation → List CallEdge → List Evidence
sites_in key edges = map edge_at (keep (is_call key) edges)

-- Whether some edge writes the relation `key`.
abbrev pub called : Relation → List CallEdge → Bool
called key edges = any (is_call key) edges

abbrev pub edges_of : Option CallGraph → List CallEdge
edges_of none = []
edges_of (some graph) = graph.edges

abbrev add_sites : Option (List Evidence) → List Evidence → Option (List Evidence)
add_sites none [] = none
add_sites none (x ∷ xs) = some (x ∷ xs)
add_sites (some cites) xs = some (cites ++ xs)

sites_at-add_site :
    (k key : Relation) (site : Evidence) (s : Sites)
    → sites_at key (add_site k site s)
      ≡ (if relation_eq k key then add_sites (sites_at key s) (site ∷ []) else sites_at key s)
unfolding sites_at add_site
sites_at-add_site k key site [] = ground arith
sites_at-add_site k key site ((j, cites) ∷ s) = ground (
  arith,
  relation_eq_iff j k,
  relation_eq_iff j key,
  relation_eq_iff k key,
  sites_at-add_site k key site s,
)

add_sites_twice :
    (o : Option (List Evidence)) (x : Evidence) (xs : List Evidence)
    → add_sites (add_sites o (x ∷ [])) xs ≡ add_sites o (x ∷ xs)
add_sites_twice none x xs = refl
add_sites_twice (some cites) x xs = ap some (append_assoc cites (x ∷ []) xs)

add_sites_nil : (o : Option (List Evidence)) → add_sites o [] ≡ o
add_sites_nil none = refl
add_sites_nil (some cites) = ap some (append-nil cites)

sites_at-group_from :
    (key : Relation) (s : Sites) (o : List Relation) (edges : List CallEdge)
    → sites_at key (group_from s o edges).0 ≡ add_sites (sites_at key s) (sites_in key edges)
unfolding group_from
sites_at-group_from key s o [] = sym (add_sites_nil (sites_at key s))
sites_at-group_from key s o (edge ∷ rest) =
    sites_at-group_from key (add_site (relation_of edge) (edge_at edge) s) _ rest
    ∙ step (Bool-cases (is_call key edge))
  where
    step :
        (is_call key edge ≡ true) ⊎ (is_call key edge ≡ false)
        → add_sites
            (sites_at key (add_site (relation_of edge) (edge_at edge) s))
            (sites_in key rest)
          ≡ add_sites (sites_at key s) (sites_in key (edge ∷ rest))
    step (inl e) =
        rw (sites_at-add_site, e)
          (add_sites_twice (sites_at key s) (edge_at edge) (sites_in key rest))
    step (inr e) = rw (sites_at-add_site, e)

-- The relations with a site are listed in the order.
abbrev Listed : Sites → List Relation → Type 0
Listed s o = (k : Relation) → sites_at k s ≢ none → In k o

order_after-keeps :
    (found : Option (List Evidence)) (key k : Relation) (o : List Relation)
    → In k o
    → In k (order_after found key o)
order_after-keeps none key k o i = In-append_left k o (key ∷ []) i
order_after-keeps (some c) key k o i = i

order_after-In :
    (found : Option (List Evidence)) (key k : Relation) (o : List Relation)
    → In k (order_after found key o)
    → In k o ⊎ (k ≡ key)
order_after-In none key k o i = elim (In-append k o (key ∷ []) i) [
  | inl old ↦ inl old
  | inr (inl e) ↦ inr e
  | inr (inr n) ↦ absurd n.1
]
order_after-In (some c) key k o i = inl i

order_after_self :
    (found : Option (List Evidence)) (key : Relation) (o : List Relation)
    → (found ≢ none → In key o)
    → In key (order_after found key o)
order_after_self none key o h = In-append_right key o (key ∷ []) (inl refl)
order_after_self (some c) key o h = h (λ e. cc)

Listed-add_site :
    (s : Sites) (o : List Relation) (key : Relation) (site : Evidence)
    → Listed s o
    → Listed (add_site key site s) (order_after (sites_at key s) key o)
Listed-add_site s o key site h k n = elim (Bool-cases (relation_eq key k)) [
  | inl same ↦
      subst (λ x. In x (order_after (sites_at key s) key o)) ((relation_eq_iff key k).0 same)
        (order_after_self (sites_at key s) key o (h key))
  | inr other ↦
      order_after-keeps (sites_at key s) key k o
        (h k (λ e. n (sites_at-add_site key k site s ∙ rw other e)))
]

order_complete :
    (k : Relation) (s : Sites) (o : List Relation) (edges : List CallEdge)
    → Listed s o
    → (In k o) ⊎ (called k edges ≡ true)
    → In k (group_from s o edges).1
unfolding group_from
order_complete k s o [] h (inl i) = i
order_complete k s o [] h (inr c) = absurd (cc)
order_complete k s o (edge ∷ rest) h i =
    order_complete k (add_site (relation_of edge) (edge_at edge) s)
      (order_after (sites_at (relation_of edge) s) (relation_of edge) o) rest
      (Listed-add_site s o (relation_of edge) (edge_at edge) h) (next i)
  where
    next :
        (In k o) ⊎ (called k (edge ∷ rest) ≡ true)
        → (In k (order_after (sites_at (relation_of edge) s) (relation_of edge) o))
          ⊎ (called k rest ≡ true)
    next (inl old) =
        inl (order_after-keeps (sites_at (relation_of edge) s) (relation_of edge) k o old)
    next (inr c) = elim (Bool-cases (is_call k edge)) [
      | inl hit ↦ inl (
          subst (λ x. In x (order_after (sites_at (relation_of edge) s) (relation_of edge) o))
            ((relation_eq_iff (relation_of edge) k).0 hit)
            (order_after_self (sites_at (relation_of edge) s) (relation_of edge) o
              (h (relation_of edge))))
      | inr miss ↦ inr (rw miss at c)
    ]

order_sound :
    (k : Relation) (s : Sites) (o : List Relation) (edges : List CallEdge)
    → In k (group_from s o edges).1
    → (In k o) ⊎ (called k edges ≡ true)
unfolding group_from
order_sound k s o [] i = inl i
order_sound k s o (edge ∷ rest) i =
    elim (order_sound k (add_site (relation_of edge) (edge_at edge) s)
      (order_after (sites_at (relation_of edge) s) (relation_of edge) o) rest i) [
        | inl old ↦
            elim (order_after-In (sites_at (relation_of edge) s) (relation_of edge) k o old) [
              | inl j ↦ inl j
              | inr e ↦ inr (rw ((relation_eq_iff (relation_of edge) k).1 (sym e)))
            ]
        | inr c ↦ inr (rw c (ground arith))
      ]

-- The sites of a relation in a group: none where no edge writes it.
abbrev pub found_sites : Relation → List CallEdge → Option (List Evidence)
found_sites key edges = add_sites none (sites_in key edges)

pub sites_at-group :
    (key : Relation) (graph : Option CallGraph)
    → sites_at key (group graph).0 ≡ found_sites key (edges_of graph)
unfolding group sites_at
sites_at-group key none = refl
sites_at-group key (some graph) = sites_at-group_from key [] [] graph.edges

pub In-group :
    (k : Relation) (graph : Option CallGraph)
    → In k (group graph).1 ↔ (called k (edges_of graph) ≡ true)
unfolding group
In-group k none = (λ i. absurd i.1, λ c. absurd (cc))
In-group k (some graph) = (
  λ i. elim (order_sound k [] [] graph.edges i) [ inl n ↦ absurd n.1 | inr c ↦ c ],
  λ c. order_complete k [] [] graph.edges (λ j n. absurd (n (unfold sites_at in refl))) (inr c),
)
