-- ===== src/Engine/Calls/Partition.antt =====
-- The comparison of two call graphs classifies every relation of either exactly once.
use version_aware_code_mcp.Prelude.{
  List, [], ◌∷◌, ◌++◌, map, Option, none, some, Bool, true, false, ◌||◌, ◌&&◌, not, ◌≡◌, ◌⊎◌, ◌↔◌,
  inl, inr, refl, sym, ap, subst, ◌∙◌, arith, any, keep, In, In-append, In-append_left,
  In-append_right, Distinct, Bool-cases, any→In, not-In_of_any, append-nil, append_assoc,
  if◌then◌else◌,
}
use version_aware_code_mcp.Provider.{CallGraph, CallEdge}
use version_aware_code_mcp.Engine.Calls.{
  Relation, CallRelation, Classes, relation_eq, Sites, sites_at, classify, classify_from,
  classify_graphs, no_classes, group,
}
use version_aware_code_mcp.Engine.Calls.Groups.{
  relation_eq_iff, is_call, sites_in, called, edges_of, found_sites, sites_at-group, In-group,
}

-- The keys that the loop classifies: those not seen before, each at its first place.
abbrev fresh : List Relation → List Relation → List Relation
fresh seen [] = []
fresh seen (key ∷ rest) =
    let skipped = fresh seen rest in
    let kept = fresh (seen ++ key ∷ []) rest in
    if any (relation_eq key) seen then skipped else key ∷ kept

fresh-In :
    (k : Relation) (seen keys : List Relation) → In k (fresh seen keys) → In k keys × (¬ In k seen)
fresh-In k seen [] i = absurd i.1
fresh-In k seen (key ∷ rest) i = elim (Bool-cases (any (relation_eq key) seen)) [
  | inl old ↦ let (a, b) = fresh-In k seen rest (rw old at i) in (inr a, b)
  | inr new ↦
      let j : In k (key ∷ fresh (seen ++ key ∷ []) rest) = rw new at i in
      elim j [
        | inl e ↦ (
          inl e,
          subst (λ x. ¬ In x seen) (sym e) (not-In_of_any relation_eq relation_eq_iff key seen new),
        )
        | inr l ↦
            let (a, b) = fresh-In k (seen ++ key ∷ []) rest l in
            (inr a, λ s. b (In-append_left k seen (key ∷ []) s))
      ]
]

In-fresh :
    (k : Relation) (seen keys : List Relation) → In k keys → In k seen ⊎ In k (fresh seen keys)
In-fresh k seen [] i = absurd i.1
In-fresh k seen (key ∷ rest) i = elim (Bool-cases (any (relation_eq key) seen)) [
  | inl old ↦ rw old (elim i [
    | inl e ↦ inl (subst (λ x. In x seen) (sym e) (any→In relation_eq relation_eq_iff key seen old))
    | inr j ↦ In-fresh k seen rest j
  ])
  | inr new ↦ rw new (elim i [
    | inl e ↦ inr (inl e)
    | inr j ↦ elim (In-fresh k (seen ++ key ∷ []) rest j) [
      | inl s ↦ elim (In-append k seen (key ∷ []) s) [
        | inl l ↦ inl l
        | inr (inl e) ↦ inr (inl e)
        | inr (inr n) ↦ absurd n.1
      ]
      | inr l ↦ inr (inr l)
    ]
  ])
]

fresh-Distinct : (seen keys : List Relation) → Distinct (fresh seen keys)
fresh-Distinct seen [] = tt
fresh-Distinct seen (key ∷ rest) = elim (Bool-cases (any (relation_eq key) seen)) [
  | inl old ↦ rw old (fresh-Distinct seen rest)
  | inr new ↦ rw new (
    λ i.
        (fresh-In key (seen ++ key ∷ []) rest i).1 (In-append_right key seen (key ∷ []) (inl refl)),
    fresh-Distinct (seen ++ key ∷ []) rest,
  )
]

-- A relation as the comparison reports it: with every call site of either version.
abbrev pub described : List CallEdge → List CallEdge → Relation → CallRelation
described from to key = record {
  caller = key.caller;
  callee = key.callee;
  path = key.path;
  from_evidence = sites_in key from;
  to_evidence = sites_in key to;
}

abbrev pub in_both : List CallEdge → List CallEdge → Relation → Bool
in_both from to key = called key from && called key to

abbrev pub in_from_only : List CallEdge → List CallEdge → Relation → Bool
in_from_only from to key = called key from && not (called key to)

abbrev pub in_to_only : List CallEdge → List CallEdge → Relation → Bool
in_to_only from to key = not (called key from) && called key to

-- Classes to which the relations of `keys` have been added, each in the one that it belongs to.
abbrev with_keys : List CallEdge → List CallEdge → List Relation → Classes → Classes
with_keys from to keys c = record {
  added = c.added ++ map (described from to) (keep (in_to_only from to) keys);
  removed = c.removed ++ map (described from to) (keep (in_from_only from to) keys);
  unchanged = c.unchanged ++ map (described from to) (keep (in_both from to) keys);
}

-- No edge writes a relation exactly when it has no site.
called-sites_in :
    (key : Relation) (edges : List CallEdge)
    → ((called key edges ≡ true) × (found_sites key edges ≡ some (sites_in key edges)))
      ⊎ ((called key edges ≡ false) × (found_sites key edges ≡ none) × (sites_in key edges ≡ []))
called-sites_in key [] = inr (refl, refl, refl)
called-sites_in key (edge ∷ rest) = elim (Bool-cases (is_call key edge)) [
  | inl hit ↦ inl (rw hit refl, rw hit refl)
  | inr miss ↦ rw miss (called-sites_in key rest)
]

classify-key :
    (from to : List CallEdge) (key : Relation) (c : Classes)
    → (called key from || called key to) ≡ true
    → classify key (found_sites key from) (found_sites key to) c ≡ with_keys from to (key ∷ []) c
unfolding classify
classify-key from to key c h = ground (
  arith,
  called-sites_in key from,
  called-sites_in key to,
  append-nil c.added,
  append-nil c.removed,
  append-nil c.unchanged,
)

map-keep-cons :
    (f : Relation → CallRelation) (p : Relation → Bool) (key : Relation) (keys : List Relation)
    (c : List CallRelation)
    → (c ++ map f (keep p (key ∷ []))) ++ map f (keep p keys) ≡ c ++ map f (keep p (key ∷ keys))
map-keep-cons f p key keys c = elim (Bool-cases (p key)) [
  | inl e ↦ rw e (append_assoc c (f key ∷ []) (map f (keep p keys)))
  | inr e ↦ rw e (ap (λ x. x ++ map f (keep p keys)) (append-nil c))
]

with_keys-cons :
    (from to : List CallEdge) (key : Relation) (keys : List Relation) (c : Classes)
    → with_keys from to keys (with_keys from to (key ∷ []) c) ≡ with_keys from to (key ∷ keys) c
with_keys-cons from to key keys c = λ i. record {
  added = map-keep-cons (described from to) (in_to_only from to) key keys c.added i;
  removed = map-keep-cons (described from to) (in_from_only from to) key keys c.removed i;
  unchanged = map-keep-cons (described from to) (in_both from to) key keys c.unchanged i;
}

-- What is known of the two groups while the loop runs.
module _ (from to : List CallEdge) (fs ts : Sites)
    (from_sites : (key : Relation) → sites_at key fs ≡ found_sites key from)
    (to_sites : (key : Relation) → sites_at key ts ≡ found_sites key to) where
  classify_from-eq-with_keys :
      (seen keys : List Relation) (c : Classes)
      → ((k : Relation) → In k keys → (called k from || called k to) ≡ true)
      → classify_from fs ts seen keys c ≡ with_keys from to (fresh seen keys) c
  unfolding classify_from
  classify_from-eq-with_keys seen [] c h = λ i. record {
    added = sym (append-nil c.added) i;
    removed = sym (append-nil c.removed) i;
    unchanged = sym (append-nil c.unchanged) i;
  }
  classify_from-eq-with_keys seen (key ∷ rest) c h =
      elim (Bool-cases (any (relation_eq key) seen)) [
        | inl old ↦ rw old (classify_from-eq-with_keys seen rest c (λ k i. h k (inr i)))
        | inr new ↦
            rw (new, from_sites key, to_sites key, classify-key from to key c (h key (inl refl)))
              (classify_from-eq-with_keys (seen ++ key ∷ []) rest (with_keys from to (key ∷ []) c)
                  (λ k i. h k (inr i))
                ∙ with_keys-cons from to key (fresh (seen ++ key ∷ []) rest) c)
      ]

-- The comparison as a difference of two lists of calls: `keys` are the relations of either, each
-- once, and each class holds those that it is named for, with all their call sites.
pub record IsPartition (from to : List CallEdge) (c : Classes) : Type 0 where
  pub keys : List Relation
  pub distinct : Distinct keys
  pub covers : (k : Relation) → In k keys ↔ ((called k from || called k to) ≡ true)
  pub added : c.added ≡ map (described from to) (keep (in_to_only from to) keys)
  pub removed : c.removed ≡ map (described from to) (keep (in_from_only from to) keys)
  pub unchanged : c.unchanged ≡ map (described from to) (keep (in_both from to) keys)

In-orders :
    (from to : Option CallGraph) (k : Relation)
    → In k ((group from).1 ++ (group to).1)
      ↔ ((called k (edges_of from) || called k (edges_of to)) ≡ true)
In-orders from to k = (
  λ i. elim (In-append k (group from).1 (group to).1 i) [
    | inl l ↦ rw ((In-group k from).0 l)
    | inr r ↦ rw ((In-group k to).0 r) (ground arith)
  ],
  λ h. elim (Bool-cases (called k (edges_of from))) [
    | inl l ↦ In-append_left k (group from).1 (group to).1 ((In-group k from).1 l)
    | inr n ↦ In-append_right k (group from).1 (group to).1 ((In-group k to).1 (rw n at h))
  ],
)

-- Every relation that either version's call graph has is in exactly one class, in the class that
-- says which versions have it, and carries every call site of each version in the order found.
pub classify_graphs-IsPartition :
    (from to : Option CallGraph)
    → IsPartition (edges_of from) (edges_of to) (classify_graphs from to)
unfolding classify_graphs
classify_graphs-IsPartition from to =
    let keys = (group from).1 ++ (group to).1 in
    let e : classify_graphs from to
        ≡ with_keys (edges_of from) (edges_of to) (fresh [] keys) no_classes =
      classify_from-eq-with_keys (edges_of from) (edges_of to) (group from).0 (group to).0
        (λ k. sites_at-group k from) (λ k. sites_at-group k to) [] keys no_classes
        (λ k i. (In-orders from to k).0 i) in
    record {
      keys = fresh [] keys;
      distinct = fresh-Distinct [] keys;
      covers = λ k. (
        λ i. (In-orders from to k).0 (fresh-In k [] keys i).0,
        λ h. elim (In-fresh k [] keys ((In-orders from to k).1 h)) [
          | inl n ↦ absurd n.1
          | inr i ↦ i
        ],
      );
      added = ap (λ x. x.added) e;
      removed = ap (λ x. x.removed) e;
      unchanged = ap (λ x. x.unchanged) e;
    }
