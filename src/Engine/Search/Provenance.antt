-- ===== src/Engine/Search/Provenance.antt =====
-- Every match belongs to the member it was found in, and every member was asked.
use version_aware_code_mcp.Prelude.{
  Text, List, [], ◌∷◌, ◌++◌, map, Option, none, some, ◌≡◌, inl, inr, subst, refl, arith, ap, ◌∙◌,
  append-nil, append_assoc,
}
use version_aware_code_mcp.Vacerr.{Failure}
use version_aware_code_mcp.Vacctx.{CodeContext, Workspace}
use version_aware_code_mcp.Effect.{ok, err, Effect, bind-eq-ok, bind-eq-err}
use version_aware_code_mcp.Evidence.{Evidence}
use version_aware_code_mcp.Provider.{SearchProvider, SearchResult}
use version_aware_code_mcp.Engine.{Engine, resolve, select_members}
use version_aware_code_mcp.Engine.Asked.{Asked, done, next, Stopped, stop, later}
use version_aware_code_mcp.Engine.Scope.{IsScope, scoped-eq-ok, pure-eq}
use version_aware_code_mcp.Engine.Search.{
  SearchCodeRequest, SearchCodeResult, Match, match_in, cite_match, search_members, search_selected,
  search_with, search_code,
}

-- The matches that the members' answers make, each under its own member's repository and revision.
abbrev pub matches_of : List CodeContext → List (List SearchResult) → List Match
matches_of [] founds = []
matches_of (m ∷ ms) [] = []
matches_of (m ∷ ms) (found ∷ founds) = map (match_in m) found ++ matches_of ms founds

-- One list of citations for each member's answer.
abbrev pub citations_of : List (List SearchResult) → List (List Evidence)
citations_of founds = map (map cite_match) founds

module _ {W : Type 0} (p : SearchProvider W) (query : Text) where
  abbrev pub ask : CodeContext → Effect W (List SearchResult)
  ask m = p.search m query

  -- What the loop adds to `matches` and `cited` as it goes.
  search_members-Asked :
      (ms : List CodeContext) (matches : List Match) (cited : List (List Evidence)) (w u : W)
      (out : List Match × List (List Evidence))
      → search_members p query ms matches cited w ≡ (ok out, u)
      → (founds : List (List SearchResult)) × Asked ask ms w founds u
        × (out.0 ≡ matches ++ matches_of ms founds)
        × (out.1 ≡ cited ++ citations_of founds)
  unfolding search_members
  search_members-Asked [] matches cited w u out h = (
    [],
    subst (λ x. Asked ask [] w [] x) (ap (λ x. x.1) h) done,
    ground (arith, append-nil matches),
    ground (arith, append-nil cited),
  )
  search_members-Asked (m ∷ ms) matches cited w u out h =
      let (found, v, asked, rest) = bind-eq-ok (p.search m query) _ w h in
      let (founds, run, a, b) =
        search_members-Asked ms (matches ++ map (match_in m) found)
          (cited ++ map cite_match found ∷ []) v u out rest in
      (
        found ∷ founds,
        next asked run,
        a ∙ append_assoc matches (map (match_in m) found) (matches_of ms founds),
        b ∙ append_assoc cited (map cite_match found ∷ []) (citations_of founds),
      )

  search_members-Stopped :
      (ms : List CodeContext) (matches : List Match) (cited : List (List Evidence)) (w u : W)
      (f : Failure)
      → search_members p query ms matches cited w ≡ (err f, u)
      → Stopped ask ms w f u
  unfolding search_members
  search_members-Stopped [] matches cited w u f h = absurd (cc (ap (λ x. x.0) h))
  search_members-Stopped (m ∷ ms) matches cited w u f h =
      elim (bind-eq-err (p.search m query) _ w h) [
        | inl e ↦ stop e
        | inr (found, v, asked, rest) ↦ later asked (
            search_members-Stopped ms (matches ++ map (match_in m) found)
              (cited ++ map cite_match found ∷ []) v u f rest)
      ]

module _ {W : Type 0} (e : Engine W) (req : SearchCodeRequest) where
  -- Where a search answers: its provider was asked in every selected member once, in order, and
  -- the matches and the citations are what each member answered, under that member's own
  -- repository and revision.
  pub record IsSearched (w u : W) (r : SearchCodeResult) : Type 0 where
    pub provider : SearchProvider W
    pub installed : e.search ≡ some provider
    pub workspace : Workspace
    pub named : r.answer.workspace.id ≡ workspace.id
    pub after : W
    pub scope : IsScope e req.context req.repository w after workspace r.answer.workspace.members
    pub founds : List (List SearchResult)
    pub asked : Asked (ask provider req.query) r.answer.workspace.members after founds u
    pub matched : r.matches ≡ matches_of r.answer.workspace.members founds
    pub cited : r.answer.cited ≡ citations_of founds

  search_with-IsSearched :
      (w v u : W) (ws : Workspace) (ms : List CodeContext) (r : SearchCodeResult)
      → IsScope e req.context req.repository w v ws ms
      → (s : Option (SearchProvider W)) → e.search ≡ s
      → search_with s req ws.id ms v ≡ (ok r, u)
      → IsSearched w u r
  unfolding search_with search_selected
  search_with-IsSearched w v u ws ms r scope none i k = absurd (cc (ap (λ x. x.0) k))
  search_with-IsSearched w v u ws ms r scope (some p) i k =
      let (found, v', ran, last) = bind-eq-ok (search_members p req.query ms [] []) _ v k in
      let (founds, run, a, b) = search_members-Asked p req.query ms [] [] v v' found ran in
      pure-eq (λ x y. IsSearched w y x) last
        (record {
          provider = p;
          installed = i;
          workspace = ws;
          named = refl;
          after = v;
          scope = scope;
          founds = founds;
          asked = run;
          matched = a;
          cited = b;
        })

  -- A search that succeeds has asked each selected member once, in order, and reports what each
  -- answered under that member's own repository and revision, with one citation for each match.
  pub search_code-IsSearched :
      (w u : W) (r : SearchCodeResult) → search_code e req w ≡ (ok r, u) → IsSearched w u r
  unfolding search_code
  search_code-IsSearched w u r h =
      let (ws, v, ms, scope, rest) =
        scoped-eq-ok e req.context req.repository (λ ws ms. search_with e.search req ws.id ms) w u r
          h in
      search_with-IsSearched w v u ws ms r scope e.search refl rest

  -- A search whose scope is settled and whose provider is there either asks every member, or
  -- fails with the first failing member's own error and asks no later one.
  pub search_code-Stopped :
      (p : SearchProvider W) (ws : Workspace) (ms : List CodeContext) (w v u : W) (f : Failure)
      → e.search ≡ some p
      → resolve e req.context w ≡ (ok ws, v)
      → select_members req.context req.repository ws ≡ ok ms
      → search_code e req w ≡ (err f, u)
      → Stopped (ask p req.query) ms v f u
  unfolding search_code search_with search_selected
  search_code-Stopped p ws ms w v u f i found chosen h =
      elim (bind-eq-err (search_members p req.query ms [] []) _ v (rw (found, chosen, i) at h)) [
        | inl stopped ↦ search_members-Stopped p req.query ms [] [] v u f stopped
        | inr (out, v', ran, last) ↦ absurd (cc (ap (λ x. x.0) last))
      ]
