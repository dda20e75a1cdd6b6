-- ===== src/Engine/Search/Commits.antt =====
-- Every commit is reported under the repository it was found in, and every member was asked.
use version_aware_code_mcp.Prelude.{
  List, [], ◌∷◌, ◌++◌, map, Option, none, some, ◌≡◌, subst, refl, arith, ap, ◌∙◌, append-nil,
  append_assoc,
}
use version_aware_code_mcp.Vacctx.{CodeContext, Workspace}
use version_aware_code_mcp.Effect.{ok, Effect, bind-eq-ok}
use version_aware_code_mcp.Evidence.{Evidence}
use version_aware_code_mcp.Provider.{SourceProvider, HistoryProvider, HistoryQuery, HistoryEntry}
use version_aware_code_mcp.Engine.{Engine}
use version_aware_code_mcp.Engine.Asked.{Asked, done, next}
use version_aware_code_mcp.Engine.Scope.{IsScope, scoped-eq-ok, pure-eq}
use version_aware_code_mcp.Engine.Search.{
  SearchHistoryRequest, SearchHistoryResult, Commit, commit_in, cite_commit, history_members,
  history_selected, history_capability, history_query, history_with, search_history,
}

-- The commits that the members' answers make, each under its own member's repository.
abbrev pub commits_of : List CodeContext → List (List HistoryEntry) → List Commit
commits_of [] founds = []
commits_of (m ∷ ms) [] = []
commits_of (m ∷ ms) (found ∷ founds) = map (commit_in m) found ++ commits_of ms founds

-- One list of citations for each member's answer.
abbrev pub citations_of : List (List HistoryEntry) → List (List Evidence)
citations_of founds = map (map cite_commit) founds

module _ {W : Type 0} (p : HistoryProvider W) (query : HistoryQuery) where
  abbrev pub ask : CodeContext → Effect W (List HistoryEntry)
  ask m = p m query

  -- What the loop adds to `commits` and `cited` as it goes.
  history_members-Asked :
      (ms : List CodeContext) (commits : List Commit) (cited : List (List Evidence)) (w u : W)
      (out : List Commit × List (List Evidence))
      → history_members p query ms commits cited w ≡ (ok out, u)
      → (founds : List (List HistoryEntry)) × Asked ask ms w founds u
        × (out.0 ≡ commits ++ commits_of ms founds)
        × (out.1 ≡ cited ++ citations_of founds)
  unfolding history_members
  history_members-Asked [] commits cited w u out h = (
    [],
    subst (λ x. Asked ask [] w [] x) (ap (λ x. x.1) h) done,
    ground (arith, append-nil commits),
    ground (arith, append-nil cited),
  )
  history_members-Asked (m ∷ ms) commits cited w u out h =
      let (found, v, asked, rest) = bind-eq-ok (p m query) _ w h in
      let (founds, run, a, b) =
        history_members-Asked ms (commits ++ map (commit_in m) found)
          (cited ++ map cite_commit found ∷ []) v u out rest in
      (
        found ∷ founds,
        next asked run,
        a ∙ append_assoc commits (map (commit_in m) found) (commits_of ms founds),
        b ∙ append_assoc cited (map cite_commit found ∷ []) (citations_of founds),
      )

module _ {W : Type 0} (e : Engine W) (req : SearchHistoryRequest) where
  -- Where a search of the history answers: its provider was asked in every selected member once, in
  -- order, and the commits and the citations are what each member answered, in that order.
  pub record IsFound (w u : W) (r : SearchHistoryResult) : Type 0 where
    pub source : SourceProvider W
    pub installed : e.source ≡ some source
    pub provider : HistoryProvider W
    pub capable : source.history ≡ some provider
    pub workspace : Workspace
    pub named : r.answer.workspace.id ≡ workspace.id
    pub after : W
    pub scope : IsScope e req.context req.repository w after workspace r.answer.workspace.members
    pub founds : List (List HistoryEntry)
    pub asked : Asked (ask provider (history_query req)) r.answer.workspace.members after founds u
    pub reported : r.commits ≡ commits_of r.answer.workspace.members founds
    pub cited : r.answer.cited ≡ citations_of founds

  history_capability-IsFound :
      (w v u : W) (ws : Workspace) (ms : List CodeContext) (r : SearchHistoryResult)
      (p : SourceProvider W)
      → IsScope e req.context req.repository w v ws ms
      → e.source ≡ some p
      → (o : Option (HistoryProvider W)) → p.history ≡ o
      → history_capability o req ws.id ms v ≡ (ok r, u)
      → IsFound w u r
  unfolding history_capability history_selected
  history_capability-IsFound w v u ws ms r p scope i none c k = absurd (cc (ap (λ x. x.0) k))
  history_capability-IsFound w v u ws ms r p scope i (some h) c k =
      let (found, v', ran, last) =
        bind-eq-ok (history_members h (history_query req) ms [] []) _ v k in
      let (founds, run, a, b) =
        history_members-Asked h (history_query req) ms [] [] v v' found ran in
      pure-eq (λ x y. IsFound w y x) last
        (record {
          source = p;
          installed = i;
          provider = h;
          capable = c;
          workspace = ws;
          named = refl;
          after = v;
          scope = scope;
          founds = founds;
          asked = run;
          reported = a;
          cited = b;
        })

  history_with-IsFound :
      (w v u : W) (ws : Workspace) (ms : List CodeContext) (r : SearchHistoryResult)
      → IsScope e req.context req.repository w v ws ms
      → (s : Option (SourceProvider W)) → e.source ≡ s
      → history_with s req ws.id ms v ≡ (ok r, u)
      → IsFound w u r
  unfolding history_with
  history_with-IsFound w v u ws ms r scope none i k = absurd (cc (ap (λ x. x.0) k))
  history_with-IsFound w v u ws ms r scope (some p) i k =
      history_capability-IsFound w v u ws ms r p scope i p.history refl k

  -- A search of the history that succeeds has asked each selected member once, in order, and
  -- reports what each answered under that member's own repository, with one citation for each.
  pub search_history-IsFound :
      (w u : W) (r : SearchHistoryResult) → search_history e req w ≡ (ok r, u) → IsFound w u r
  unfolding search_history
  search_history-IsFound w u r h =
      let (ws, v, ms, scope, rest) =
        scoped-eq-ok e req.context req.repository (λ ws ms. history_with e.source req ws.id ms) w u
          r h in
      history_with-IsFound w v u ws ms r scope e.source refl rest
