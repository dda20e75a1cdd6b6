-- ===== src/GitSource/History/Walking.antt =====
-- What a search of the history has walked, and what it answers.
use version_aware_code_mcp.Prelude.{
  zero, suc, ◌≤◌, Text, ℤ, pos, negsuc, pos_part, ◌≤ℤ◌, List, [], length, take, Option, none, some,
  Bool, true, false, ◌≡◌, ◌⊎◌, inl, inr, refl, sym, ap, subst, ◌∙◌, arith, if◌then◌else◌, All,
  is_blank, split_on,
}
use version_aware_code_mcp.Vacerr
use version_aware_code_mcp.Vacctx.{CodeContext}
use version_aware_code_mcp.Effect.{ok, bind-eq-ok, lift-bind-eq-ok}
use version_aware_code_mcp.Provider.{HistoryQuery, HistoryEntry}
use version_aware_code_mcp.Deadline.{ended}
use version_aware_code_mcp.Config.{Repository, lookup}
use version_aware_code_mcp.Resolver.{Git}
use version_aware_code_mcp.Resolver.Resolution.{handle-cases}
use version_aware_code_mcp.GitSource.{resolve, commit_of}
use version_aware_code_mcp.GitSource.Paths.{validate_path}
use version_aware_code_mcp.GitSource.Paths.Inside.{IsInside, validate_path-IsInside}
use version_aware_code_mcp.GitSource.Reading.Ranges.{resolve-ok}
use version_aware_code_mcp.GitSource.History.{
  Locale, default_history_limit, history_limit, path_filter, history_args, history_failed,
  history_at, history_in, search_history, needle_of, record_separator, parse_history,
}
use version_aware_code_mcp.GitSource.History.Matching.{
  all_entries, parse_history-take, length-take_le, All-take, IsMatch, all_entries-IsMatch,
}

-- The cap that was asked for, or the default where none was.
pub data IsLimit : ℤ → ℤ → Type 0 where
  default : IsLimit (pos 0) default_history_limit
  asked : {n : ℤ} → pos 1 ≤ℤ n → IsLimit n n

history_limit-IsLimit : (n m : ℤ) → history_limit n ≡ ok m → IsLimit n m
unfolding history_limit
history_limit-IsLimit (pos zero) m h = subst (IsLimit (pos 0)) (ground (arith, h)) IsLimit.default
history_limit-IsLimit (pos (suc n)) m h =
    subst (IsLimit (pos (suc n))) (ground (arith, h)) (IsLimit.asked (omega arith))
history_limit-IsLimit (negsuc n) m h = absurd (cc)

-- A path filter that is given is a path inside the repository.
path_filter-IsInside :
    (path filter : Text) → path_filter path ≡ ok filter → (filter ≡ []) ⊎ IsInside filter
unfolding path_filter
path_filter-IsInside path filter h = go (is_blank path) h
  where
    go :
        (b : Bool)
        → (if b then ok [] else validate_path path) ≡ ok filter
        → (filter ≡ []) ⊎ IsInside filter
    go true k = inl (ground arith)
    go false k = inr (validate_path-IsInside path filter k)

module _ {W : Type 0} (g : Git W) (locale : Locale) (repositories : List (Text × Repository)) where
  -- What a search has done: one walk of the context's own repository from the commit that its
  -- revision names, and the first entries of it that pass the filters, up to the cap.
  pub record IsHistory (c : CodeContext) (q : HistoryQuery) (w u : W) (r : List HistoryEntry)
      : Type 0 where
    pub limit : ℤ
    pub capped : IsLimit q.limit limit
    pub filter : Text
    pub accepted : path_filter q.path ≡ ok filter
    pub inside : (filter ≡ []) ⊎ IsInside filter
    pub repository : Repository
    pub configured : lookup c.repository repositories ≡ some repository
    pub revision : Text
    pub after : W
    pub pinned : commit_of g repository.path c.revision w ≡ (ok revision, after)
    pub out : Text
    pub shown : g.run repository.path (history_args q.symbol revision filter) after ≡ (ok out, u)
    pub first_ones :
        r
        ≡ take
            (pos_part limit)
            (all_entries locale filter (needle_of locale q.query) (split_on record_separator out))
    pub bounded : length r ≤ pos_part limit
    pub matching : All (IsMatch locale filter (needle_of locale q.query)) r

  history_in-IsHistory :
      (c : CodeContext) (o : Option Repository) (q : HistoryQuery) (filter : Text) (limit : ℤ)
      (w u : W) (r : List HistoryEntry)
      → history_limit q.limit ≡ ok limit
      → path_filter q.path ≡ ok filter
      → lookup c.repository repositories ≡ o
      → history_in g locale c o q filter limit w ≡ (ok r, u)
      → IsHistory c q w u r
  unfolding history_in history_at
  history_in-IsHistory c none q filter limit w u r l f o h = absurd (cc (ap (λ x. x.0) h))
  history_in-IsHistory c (some repo) q filter limit w u r l f o h =
      let (revision, v, resolved, rest) = bind-eq-ok (resolve g c repo.path) _ w h in
      elim (handle-cases (g.run repo.path (history_args q.symbol revision filter) v) _ _ rest) [
        | inl (out, y, shown, k) ↦
            let all =
              all_entries locale filter (needle_of locale q.query)
                (split_on record_separator out) in
            let read : parse_history locale out q.query filter limit ≡ r =
              ground (arith, ap (λ z. z.0) k) in
            let first : r ≡ take (pos_part limit) all =
              sym read ∙ parse_history-take locale out q.query filter limit in
            record {
              limit = limit;
              capped = history_limit-IsLimit q.limit limit l;
              filter = filter;
              accepted = f;
              inside = path_filter-IsInside q.path filter f;
              repository = repo;
              configured = o;
              revision = revision;
              after = v;
              pinned = resolve-ok g c repo.path revision w v resolved;
              out = out;
              shown = shown ∙ ap (λ z. (ok out, z.1)) k;
              first_ones = first;
              bounded =
                  subst (λ es. length es ≤ pos_part limit) (sym first)
                    (length-take_le (pos_part limit) all);
              matching =
                  subst (All (IsMatch locale filter (needle_of locale q.query))) (sym first) (
                    All-take (IsMatch locale filter (needle_of locale q.query)) (pos_part limit) all
                      (all_entries-IsMatch locale filter (needle_of locale q.query)
                        (split_on record_separator out)));
            }
        | inr (f', y, _, k) ↦ absurd (failed c revision (ended (g.cause y)) y k)
      ]
    where
      failed :
          (c : CodeContext) (revision : Text) (late : Option Vacerr.Failure) (y : W)
          → history_failed g locale c revision late y ≡ (ok r, u)
          → ⊥
      failed c revision none y k = cc (ap (λ z. z.0) k)
      failed c revision (some x) y k = cc (ap (λ z. z.0) k)

  -- A search of the history that succeeds walked the context's own repository once, from the commit
  -- that git named for the context's revision, and answers with the first entries of that walk that
  -- pass both filters, at most as many as asked for, or 100 where nothing was asked; a path filter
  -- is inside the repository.
  pub search_history-IsHistory :
      (c : CodeContext) (q : HistoryQuery) (w u : W) (r : List HistoryEntry)
      → search_history g locale repositories c q w ≡ (ok r, u)
      → IsHistory c q w u r
  unfolding search_history
  search_history-IsHistory c q w u r h =
      let (limit, l, rest) = lift-bind-eq-ok (history_limit q.limit) _ w h in
      let (filter, f, last) = lift-bind-eq-ok (path_filter q.path) _ w rest in
      history_in-IsHistory c (lookup c.repository repositories) q filter limit w u r l f refl last
