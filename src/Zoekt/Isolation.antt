-- ===== src/Zoekt/Isolation.antt =====
-- A search answers from the context's own repository and branch only.
use version_aware_code_mcp.Prelude.{
  Text, List, [], ◌∷◌, ◌++◌, Bool, true, false, ◌≡◌, ◌⊎◌, ◌↔◌, inl, inr, refl, ap, sym, subst, ◌∙◌,
  arith, any, text_eq, text_eq_iff, Bool-cases, if◌then◌else◌, In, In-append, In-append_left,
  In-append_right,
}
use version_aware_code_mcp.Vacctx.{CodeContext}
use version_aware_code_mcp.Effect.{ok, bind-eq-ok, lift-bind-eq-ok}
use version_aware_code_mcp.Provider.{SearchResult}
use version_aware_code_mcp.Engine.Scope.{pure-eq}
use version_aware_code_mcp.Zoekt.{
  FileMatch, LineMatch, Reply, files, refused, unreachable, unreadable, Server, scoped_query,
  result_of, is_in_scope, line_results, file_results, read_reply, post, search,
}

-- The file is the context's own: its repository, and one of the file's branches is its branch.
pub record IsOwn (c : CodeContext) (f : FileMatch) : Type 0 where
  pub repository : f.repository ≡ c.repository
  pub branch : In c.branch f.branches

-- The result is a line of the file that the server reported, and not the file's name.
abbrev pub Cites : FileMatch → SearchResult → Type 0
Cites f r = (l : LineMatch) × In l f.line_matches × (l.file_name ≡ false) × (r ≡ result_of f l)

branch-In : (b : Text) (bs : List Text) → (any (λ x. text_eq x b) bs ≡ true) ↔ In b bs
branch-In b [] = (λ h. absurd (cc), λ h. absurd h.1)
branch-In b (x ∷ bs) = (
  λ h. elim (Bool-cases (text_eq x b)) [
    | inl e ↦ inl (sym ((text_eq_iff x b).0 e))
    | inr e ↦ inr ((branch-In b bs).0 (rw e at h))
  ],
  λ i. elim i [
    | inl e ↦ rw ((text_eq_iff x b).1 (sym e)) refl
    | inr i ↦ elim (Bool-cases (text_eq x b)) [
      | inl e ↦ rw e refl
      | inr e ↦ rw e ((branch-In b bs).1 i)
    ]
  ],
)

is_in_scope_iff : (c : CodeContext) (f : FileMatch) → (is_in_scope c f ≡ true) ↔ IsOwn c f
unfolding is_in_scope
is_in_scope_iff c f = (
  λ h. record {
    repository = (text_eq_iff f.repository c.repository).0 (ground arith);
    branch = (branch-In c.branch f.branches).0 (ground arith);
  },
  λ o.
      rw
        (
          (text_eq_iff f.repository c.repository).1 o.repository,
          (branch-In c.branch f.branches).1 o.branch,
        )
        refl,
)

-- A list that a test adds to.
In-if_cons :
    {A : Type 0} (b : Bool) (r x : A) (rest : List A)
    → In r (if b then rest else x ∷ rest) ↔ (((b ≡ false) × (r ≡ x)) ⊎ In r rest)
In-if_cons true r x rest = (λ i. inr i, λ h. elim h [ inl k ↦ absurd (cc (k.0)) | inr i ↦ i ])
In-if_cons false r x rest = (
  λ i. elim i [ inl e ↦ inl (refl, e) | inr j ↦ inr j ],
  λ h. elim h [ inl k ↦ inl k.1 | inr i ↦ inr i ],
)

In-if_append :
    {A : Type 0} (b : Bool) (r : A) (xs rest : List A)
    → In r (if b then xs ++ rest else rest) ↔ (((b ≡ true) × In r xs) ⊎ In r rest)
In-if_append true r xs rest = (
  λ i. elim (In-append r xs rest i) [ inl j ↦ inl (refl, j) | inr j ↦ inr j ],
  λ h. elim h [ inl k ↦ In-append_left r xs rest k.1 | inr i ↦ In-append_right r xs rest i ],
)
In-if_append false r xs rest = (λ i. inr i, λ h. elim h [ inl k ↦ absurd (cc (k.0)) | inr i ↦ i ])

line_results_iff :
    (f : FileMatch) (ls : List LineMatch) (r : SearchResult)
    → In r (line_results f ls)
      ↔ ((l : LineMatch) × In l ls × (l.file_name ≡ false) × (r ≡ result_of f l))
unfolding line_results
line_results_iff f [] r = (λ i. absurd i.1, λ x. absurd x.1.1)
line_results_iff f (l ∷ ls) r =
    let step = In-if_cons l.file_name r (result_of f l) (line_results f ls) in
    (
      λ i. elim (step.0 i) [
        | inl (n, q) ↦ (l, inl refl, n, q)
        | inr j ↦ let (k, j', n, q) = (line_results_iff f ls r).0 j in (k, inr j', n, q)
      ],
      λ x.
          let (k, j, n, q) = x in
          elim j [
            | inl e ↦ step.1 (inl (ap (λ y. y.file_name) (sym e) ∙ n, q ∙ ap (result_of f) e))
            | inr j' ↦ step.1 (inr ((line_results_iff f ls r).1 (k, j', n, q)))
          ],
    )

file_results_iff :
    (c : CodeContext) (fs : List FileMatch) (r : SearchResult)
    → In r (file_results c fs) ↔ ((f : FileMatch) × In f fs × IsOwn c f × Cites f r)
unfolding file_results
file_results_iff c [] r = (λ i. absurd i.1, λ x. absurd x.1.1)
file_results_iff c (f ∷ fs) r =
    let step =
      In-if_append (is_in_scope c f) r (line_results f f.line_matches) (file_results c fs) in
    (
      λ i. elim (step.0 i) [
        | inl (own, j) ↦
            (f, inl refl, (is_in_scope_iff c f).0 own, (line_results_iff f f.line_matches r).0 j)
        | inr j ↦ let (g, j', own, q) = (file_results_iff c fs r).0 j in (g, inr j', own, q)
      ],
      λ x.
          let (g, j, own, q) = x in
          elim j [
            | inl e ↦ step.1 (
                inl (
                  (is_in_scope_iff c f).1 (subst (IsOwn c) e own),
                  (line_results_iff f f.line_matches r).1 (subst (λ y. Cites y r) e q),
                ))
            | inr j' ↦ step.1 (inr ((file_results_iff c fs r).1 (g, j', own, q)))
          ],
    )

module _ {W : Type 0} (s : Server W) (c : CodeContext) where
  -- Where a search answers: the server was sent one query, the caller's trimmed one inside the
  -- context's repository and branch, and `fs` is what it found.
  pub record IsAnswered (query : Text) (w u : W) (results : List SearchResult) : Type 0 where
    pub fs : List FileMatch
    pub sent : Text
    pub scoped : scoped_query s.quote_meta c query ≡ ok sent
    pub replied : s.exchange sent w ≡ (files fs, u)
    pub own :
        (r : SearchResult) → In r results ↔ ((f : FileMatch) × In f fs × IsOwn c f × Cites f r)

  read_reply-ok :
      (query : Text) (r : Reply × W) (fs : List FileMatch) (u : W)
      → read_reply s c query r ≡ (ok fs, u)
      → r ≡ (files fs, u)
  unfolding read_reply
  read_reply-ok query (unreachable, w) fs u h = absurd (cc (ap (λ x. x.0) h))
  read_reply-ok query (refused n, w) fs u h = absurd (cc (ap (λ x. x.0) h))
  read_reply-ok query (unreadable, w) fs u h = absurd (cc (ap (λ x. x.0) h))
  read_reply-ok query (files gs, w) fs u h =
      let same : (Reply × W) → List FileMatch → W → Type 0 = λ x a b. x ≡ (files a, b) in
      pure-eq (same (files gs, w)) h refl

  -- A search that succeeds has sent the context's own scoped query, and its results are exactly
  -- the lines, other than matches on a file's name, of those files the server found that it says
  -- are in the context's repository and on its branch.
  pub search-IsAnswered :
      (query : Text) (w u : W) (results : List SearchResult)
      → search s c query w ≡ (ok results, u)
      → IsAnswered query w u results
  unfolding search post
  search-IsAnswered query w u results h =
      let (sent, scoped, rest) = lift-bind-eq-ok (scoped_query s.quote_meta c query) _ w h in
      let (fs, v, read, last) = bind-eq-ok (post s c sent) _ w rest in
      pure-eq (λ x y. IsAnswered query w y x) last
        (record {
          fs = fs;
          sent = sent;
          scoped = scoped;
          replied = read_reply-ok sent (s.exchange sent w) fs v read;
          own = file_results_iff c fs;
        })
