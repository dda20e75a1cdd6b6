-- ===== src/Engine/Listing.antt =====
-- The listing of contexts is sorted, and loses and adds none.
use version_aware_code_mcp.Prelude.{
  List, [], ◌∷◌, true, false, ◌≡◌, inl, inr, text_leb, text_leb-total, Bool-cases,
}
use mathlib.Core.List.{Perm}
use mathlib.Core.List.Perm as Permutation
use version_aware_code_mcp.Vacctx.{Workspace}
use version_aware_code_mcp.Effect.{ok, bind-eq-ok}
use version_aware_code_mcp.Engine.{Engine, insert_workspace, sort_workspaces, list_contexts}
use version_aware_code_mcp.Engine.Scope.{pure-eq}

-- Each id is no greater than the next one.
abbrev pub Sorted : List Workspace → Type 0
Sorted [] = Unit
Sorted (a ∷ []) = Unit
Sorted (a ∷ b ∷ rest) = (text_leb a.id b.id ≡ true) × Sorted (b ∷ rest)

insert-Sorted_after :
    (a b : Workspace) (ws : List Workspace)
    → text_leb a.id b.id ≡ false
    → Sorted (b ∷ ws)
    → Sorted (insert_workspace a ws)
    → Sorted (b ∷ insert_workspace a ws)
unfolding insert_workspace
insert-Sorted_after a b [] h s k = (text_leb-total a.id b.id h, tt)
insert-Sorted_after a b (c ∷ ws) h s k = elim (Bool-cases (text_leb a.id c.id)) [
  | inl e ↦ rw e (text_leb-total a.id b.id h, rw e at k)
  | inr e ↦ rw e (s.0, rw e at k)
]

insert_workspace-Sorted :
    (a : Workspace) (ws : List Workspace) → Sorted ws → Sorted (insert_workspace a ws)
unfolding insert_workspace
insert_workspace-Sorted a [] s = tt
insert_workspace-Sorted a (b ∷ []) s = elim (Bool-cases (text_leb a.id b.id)) [
  | inl e ↦ rw e (e, tt)
  | inr e ↦ rw e (text_leb-total a.id b.id e, tt)
]
insert_workspace-Sorted a (b ∷ c ∷ ws) s = elim (Bool-cases (text_leb a.id b.id)) [
  | inl e ↦ rw e (e, s)
  | inr e ↦ rw e (insert-Sorted_after a b (c ∷ ws) e s (insert_workspace-Sorted a (c ∷ ws) s.1))
]

insert_workspace-Perm :
    (a : Workspace) (ws : List Workspace) → Perm (a ∷ ws) (insert_workspace a ws)
unfolding insert_workspace
insert_workspace-Perm a [] = Permutation.refl (a ∷ [])
insert_workspace-Perm a (b ∷ ws) = elim (Bool-cases (text_leb a.id b.id)) [
  | inl e ↦ rw e (Permutation.refl (a ∷ b ∷ ws))
  | inr e ↦ rw e (
      Permutation.trans (Permutation.swap b a ws) (Permutation.cons b (insert_workspace-Perm a ws)))
]

sort_workspaces-Sorted : (ws : List Workspace) → Sorted (sort_workspaces ws)
unfolding sort_workspaces
sort_workspaces-Sorted [] = tt
sort_workspaces-Sorted (a ∷ ws) =
    insert_workspace-Sorted a (sort_workspaces ws) (sort_workspaces-Sorted ws)

sort_workspaces-Perm : (ws : List Workspace) → Perm ws (sort_workspaces ws)
unfolding sort_workspaces
sort_workspaces-Perm [] = Permutation.nil
sort_workspaces-Perm (a ∷ ws) =
    Permutation.trans (Permutation.cons a (sort_workspaces-Perm ws))
      (insert_workspace-Perm a (sort_workspaces ws))

-- What a listing answers, given what the source of contexts lists.
pub record IsListed {W : Type 0} (e : Engine W) (w u : W) (ws : List Workspace) : Type 0 where
  pub listed : List Workspace
  pub answered : e.contexts.contexts w ≡ (ok listed, u)
  pub same : Perm listed ws
  pub sorted : Sorted ws

-- The contexts that are listed are those of the source, each as often as there, sorted by id.
pub list_contexts-IsListed :
    {W : Type 0} (e : Engine W) (w u : W) (ws : List Workspace)
    → list_contexts e w ≡ (ok ws, u)
    → IsListed e w u ws
unfolding list_contexts
list_contexts-IsListed e w u ws h =
    let (listed, v, answered, last) = bind-eq-ok e.contexts.contexts _ w h in
    pure-eq (λ x y. IsListed e w y x) last
      (record {
        listed = listed;
        answered = answered;
        same = sort_workspaces-Perm listed;
        sorted = sort_workspaces-Sorted listed;
      })
