-- ===== src/Cbm/Tracing/Located.antt =====
-- The nodes that a trace keeps: each is listed by CBM and reached by the walk.
use version_aware_code_mcp.Prelude.{
  Text, ℤ, List, [], ◌∷◌, Option, none, some, ◌≡◌, inl, inr, refl, In, All, All-append,
}
use version_aware_code_mcp.Config.{lookup}
use version_aware_code_mcp.Cbm.{Node}
use version_aware_code_mcp.Cbm.Tracing.{keep_node, nodes_from}

-- A node that is kept is one that CBM listed, under its own name, which the walk has reached.
pub record IsLocated (hops : List (Text × ℤ)) (found : List Node) (entry : Text × Node)
    : Type 0 where
  pub own_name : entry.0 ≡ entry.1.name
  pub listed : In entry.1 found
  pub hop : ℤ
  pub was_reached : lookup entry.0 hops ≡ some hop

IsLocated-later :
    (hops : List (Text × ℤ)) (n : Node) (found : List Node) (entry : Text × Node)
    → IsLocated hops found entry
    → IsLocated hops (n ∷ found) entry
IsLocated-later hops n found entry l = record {
  own_name = l.own_name;
  listed = inr l.listed;
  hop = l.hop;
  was_reached = l.was_reached;
}

nodes_from-IsLocated_after :
    (hops : List (Text × ℤ)) (all found : List Node) (nodes : List (Text × Node))
    → ((n : Node) → In n found → In n all)
    → All (IsLocated hops all) nodes
    → All (IsLocated hops all) (nodes_from hops nodes found)
unfolding nodes_from
nodes_from-IsLocated_after hops all [] nodes f s = s
nodes_from-IsLocated_after hops all (n ∷ rest) nodes f s =
    nodes_from-IsLocated_after hops all rest
      (keep_node n nodes (lookup n.name hops) (lookup n.name nodes)) (λ m i. f m (inr i))
      (kept (lookup n.name hops) refl (lookup n.name nodes))
  where
    kept :
        (o : Option ℤ)
        → lookup n.name hops ≡ o
        → (dup : Option Node) → All (IsLocated hops all) (keep_node n nodes o dup)
    kept none e dup = s
    kept (some hop) e (some m) = s
    kept (some hop) e none =
        All-append (IsLocated hops all) nodes ((n.name, n) ∷ []) s
          (record { own_name = refl; listed = f n (inl refl); hop = hop; was_reached = e }, tt)

-- Each node that is kept is one that CBM listed, under its own name, and that the walk has reached.
pub nodes_from-IsLocated :
    (hops : List (Text × ℤ)) (found : List Node)
    → All (IsLocated hops found) (nodes_from hops [] found)
nodes_from-IsLocated hops found = nodes_from-IsLocated_after hops found found [] (λ n i. i) tt
