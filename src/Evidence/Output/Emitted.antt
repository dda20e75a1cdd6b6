-- ===== src/Evidence/Output/Emitted.antt =====
-- A search over an accepted configuration has an answer that the output accepts.
use version_aware_code_mcp.Prelude.{
  Text, List, [], ◌∷◌, map, false, ◌≡◌, ◌≢◌, inl, inr, refl, ap, sym, subst, ◌∙◌, All-map, length,
  is_blank, suc,
}
use version_aware_code_mcp.Vacctx.{CodeContext, Workspace}
use version_aware_code_mcp.Effect.{ok, Effect}
use version_aware_code_mcp.Engine.{Engine}
use version_aware_code_mcp.Engine.Asked.{Asked, done, next}
use version_aware_code_mcp.Engine.Scope.{IsComplete, Selected}
use version_aware_code_mcp.Engine.Search.{SearchCodeRequest, SearchCodeResult, search_code}
use version_aware_code_mcp.Engine.Search.Provenance.{search_code-IsSearched}
use version_aware_code_mcp.Config.{Config, validate}
use version_aware_code_mcp.Config.Validity.{validate_iff}
use version_aware_code_mcp.Resolver.{Git, source}
use version_aware_code_mcp.Resolver.Resolution.{resolve-IsResolved}
use version_aware_code_mcp.Resolver.Accepted.{lookup-In}
use version_aware_code_mcp.Evidence.Output.{new_workspace}
use version_aware_code_mcp.Evidence.Output.Attribution.{IsScoped, new_workspace_iff}

Asked-length :
    {W B : Type 0} {f : CodeContext → Effect W B} {xs : List CodeContext} {w u : W} {ys : List B}
    → Asked f xs w ys u
    → length ys ≡ length xs
Asked-length done = refl
Asked-length (next _ rest) = ap suc (Asked-length rest)

length-map : {A B : Type 0} (f : A → B) (xs : List A) → length (map f xs) ≡ length xs
length-map f [] = refl
length-map f (x ∷ xs) = ap suc (length-map f xs)

Selected-some :
    (repository : Text) (ms out : List CodeContext) → Selected repository ms out → out ≢ []
Selected-some repository ms out (inl (b, e, n)) k = n (sym e ∙ k)
Selected-some repository ms out (inr (m, b, e, r, i)) k = cc

module _ {W : Type 0} (e : Engine W) (g : Git W) (c : Config) where
  -- The id that an accepted configuration's resolver answers under is a real one.
  resolved-id :
      (id : Text) (w u : W) (ws : Workspace)
      → e.contexts ≡ source g c
      → validate c ≡ ok tt
      → e.contexts.resolve id w ≡ (ok ws, u)
      → is_blank ws.id ≡ false
  unfolding source
  resolved-id id w u ws s valid h =
      let r = resolve-IsResolved g c id w u ws (ap (λ x. x.resolve id w) (sym s) ∙ h) in
      let served =
        ((validate_iff c).0 valid).served (id, r.configured)
          (lookup-In id c.contexts r.configured r.found) in
      subst (λ x. is_blank x.id ≡ false) (sym r.filed) served.id

  -- Over a validated configuration, whatever a search answers can be built into an output: the
  -- workspace has an id and members, each names its repository, branch and revision, and there is
  -- one list of citations for each.
  pub search_code-new_workspace :
      (req : SearchCodeRequest) (w u : W) (r : SearchCodeResult)
      → e.contexts ≡ source g c
      → validate c ≡ ok tt
      → search_code e req w ≡ (ok r, u)
      → new_workspace r.answer.workspace r.answer.cited
        ≡ ok (record { workspace = r.answer.workspace; cited = r.answer.cited })
  search_code-new_workspace req w u r s valid h =
      let a = search_code-IsSearched e req w u r h in
      (new_workspace_iff r.answer.workspace r.answer.cited).1 (record {
        id =
            ap is_blank a.named
            ∙ resolved-id req.context w a.after a.workspace s valid a.scope.resolved;
        some_member =
            Selected-some req.repository a.workspace.members r.answer.workspace.members
              a.scope.selected;
        scoped =
            All-map IsComplete IsScoped r.answer.workspace.members
              (λ m k. record {
                repository = k.repository;
                branch = k.branch;
                revision = k.revision;
              })
              a.scope.complete;
        attributed = ap length a.cited ∙ length-map _ a.founds ∙ Asked-length a.asked;
      })
