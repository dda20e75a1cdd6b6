-- ===== src/Config/Spelling.antt =====
-- Writing a configuration and reading it back keeps every context.
use version_aware_code_mcp.Prelude.{
  Text, List, [], ◌∷◌, map, none, true, ◌≡◌, refl, ap, sym, ◌∙◌, text_eq, All,
}
use version_aware_code_mcp.Vacctx.{CodeContext, Workspace}
use version_aware_code_mcp.Effect.{ok}
use version_aware_code_mcp.Config.{
  filed, declares_inline, workspace_as, workspace_of, declared_members, declared_of,
}

-- The members of a workspace are filed under its id.
abbrev pub IsFiled : Workspace → Type 0
IsFiled ws = All (λ (m : CodeContext). m.id ≡ ws.id) ws.members

-- A sole member says something: otherwise its entry is that of a context with no repository.
abbrev pub SpeaksAlone : List CodeContext → Type 0
SpeaksAlone (m ∷ []) = declares_inline m ≡ true
SpeaksAlone _ = Unit {0}

filed-filed :
    (id : Text) (ms : List CodeContext)
    → All (λ (m : CodeContext). m.id ≡ id) ms
    → map (filed id) (map (filed []) ms) ≡ ms
filed-filed id [] h = refl
filed-filed id (m ∷ ms) h = λ i. record m { id = sym h.0 i } ∷ filed-filed id ms h.1 i

-- A workspace that is written in the spelling its member count decides reads back as itself.
pub workspace_of-declared_of :
    (ws : Workspace)
    → IsFiled ws
    → SpeaksAlone ws.members
    → workspace_of ws.id (declared_of ws) ≡ ok ws
unfolding workspace_of declared_members text_eq
workspace_of-declared_of ws f s = go ws.members f s
  where
    go :
        (ms : List CodeContext)
        → All (λ (m : CodeContext). m.id ≡ ws.id) ms
        → SpeaksAlone ms
        → workspace_of ws.id (declared_members ms) ≡ ok (record { id = ws.id; members = ms })
    go [] f s = refl
    go (m ∷ []) f s = ap (λ b. workspace_as ws.id b (filed [] m) none) s ∙ λ i.
        ok (record { id = ws.id; members = record m { id = sym f.0 i } ∷ [] })
    go (m ∷ n ∷ ms) f s =
        ap (λ x. ok (record { id = ws.id; members = x })) (filed-filed ws.id (m ∷ n ∷ ms) f)
