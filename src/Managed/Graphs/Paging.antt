-- ===== src/Managed/Graphs/Paging.antt =====
-- The walk over the pages ends, and passes only where a page holds the graph.
use version_aware_code_mcp.Prelude.{
  ℕ, zero, suc, ◌+◌, ◌≤◌, ◌<◌, Text, ℤ, pos, negsuc, List, [], ◌∷◌, Option, none, some, Bool, true,
  false, not, any, length, if◌then◌else◌, ◌≡◌, ◌≢◌, inl, inr, refl, sym, ap, subst, ◌∙◌, arith,
  text_eq, text_eq_iff, ltb_ℤ, Bool-cases, In, any→In,
}
use version_aware_code_mcp.Vacerr.{Failure}
use version_aware_code_mcp.Effect.{Result, ok, err}
use version_aware_code_mcp.Store.{ContextMember}
use version_aware_code_mcp.Managed.Graphs.{
  Page, Listing, page, cancelled, unusable, graph_unavailable, Verdict, done, again, next_page,
  is_nil, read_page, verify_graph_from, verify_graph,
}

-- A page that goes on does so further on, and was promised to.
next_page-again :
    (f : Failure) (k : ℕ) (p : Page) (o : Option ℤ) (next : ℤ)
    → p.projects ≢ []
    → next_page f (pos k) p o ≡ again next
    → (n : ℕ) × (next ≡ pos n) × (k < n)
next_page-again f k p none next some_ones h =
    (k + length p.projects, ground (arith, h), more p.projects some_ones)
  where
    more : (xs : List Text) → xs ≢ [] → k < k + length xs
    more [] n = absurd (n refl)
    more (x ∷ xs) n = omega arith
next_page-again f k p (some (negsuc m)) next some_ones h =
    elim (Bool-cases (ltb_ℤ (pos k) (negsuc m))) [
      | inl e ↦ absurd (ground (arith, e))
      | inr e ↦ absurd (cc (rw e at h))
    ]
next_page-again f k p (some (pos m)) next some_ones h = elim (Bool-cases (ltb_ℤ (pos k) (pos m))) [
  | inl e ↦
      let same : again (pos m) ≡ again next = rw e at h in
      (m, ground (arith, same), ground (arith, e))
  | inr e ↦ absurd (cc (rw e at h))
]

read_page-again :
    (id : Text) (m : ContextMember) (k : ℕ) (l : Listing) (next : ℤ)
    → read_page id m (pos k) l ≡ again next
    → (p : Page) × (l ≡ page p) × (p.has_more ≡ true) × (n : ℕ) × (next ≡ pos n) × (k < n)
unfolding read_page
read_page-again id m k unusable next h = absurd (cc)
read_page-again id m k (cancelled f) next h = absurd (cc)
read_page-again id m k (page p) next h =
    go (any (text_eq m.graph_ref) p.projects) p.has_more p.projects refl refl h
  where
    go :
        (found more : Bool) (ps : List Text)
        → p.has_more ≡ more
        → p.projects ≡ ps
        → (if found
            then done (ok tt)
            else if not more
            then done (err (graph_unavailable id m))
            else if is_nil ps
            then done (err (graph_unavailable id m))
            else next_page (graph_unavailable id m) (pos k) p p.next_offset)
          ≡ again next
        → (q : Page) × (page p ≡ page q) × (q.has_more ≡ true) × (n : ℕ) × (next ≡ pos n) × (k < n)
    go true more ps e l s = absurd (cc)
    go false false ps e l s = absurd (cc)
    go false true [] e l s = absurd (cc)
    go false true (x ∷ ps) e l s =
        let (n, there, further) =
          next_page-again (graph_unavailable id m) k p p.next_offset next
            (λ none_. cc (sym none_ ∙ l)) s in
        (p, refl, e, n, there, further)

read_page-passes :
    (id : Text) (m : ContextMember) (offset : ℤ) (l : Listing)
    → read_page id m offset l ≡ done (ok tt)
    → (p : Page) × (l ≡ page p) × In m.graph_ref p.projects
unfolding read_page
read_page-passes id m offset unusable h = absurd (cc)
read_page-passes id m offset (cancelled f) h = absurd (cc)
read_page-passes id m offset (page p) h = elim (Bool-cases (any (text_eq m.graph_ref) p.projects)) [
  | inl e ↦ (p, refl, any→In text_eq text_eq_iff m.graph_ref p.projects e)
  | inr e ↦ absurd (goes_on p.has_more p.projects p.next_offset (rw e at h))
]
  where
    goes_on :
        (more : Bool) (ps : List Text) (o : Option ℤ)
        → (if not more
            then done (err (graph_unavailable id m))
            else if is_nil ps
            then done (err (graph_unavailable id m))
            else next_page (graph_unavailable id m) offset p o)
          ≡ done (ok tt)
        → ⊥
    goes_on false ps o s = cc
    goes_on true [] o s = cc
    goes_on true (x ∷ ps) none s = cc
    goes_on true (x ∷ ps) (some next) s = elim (Bool-cases (ltb_ℤ offset next)) [
      | inl e ↦ cc (rw e at s)
      | inr e ↦ cc (rw e at s)
    ]

module _ {W : Type 0} (list_projects : ℤ → W → Listing × W) where
  -- CBM promises another page only in front of the end of the `n` projects that it holds.
  abbrev pub IsFinite : ℕ → Type 0
  IsFinite n =
      (k : ℕ) (w : W) (p : Page) → (list_projects (pos k) w).0 ≡ page p → p.has_more ≡ true → k < n

  -- A page on which the member's graph stands.
  pub record IsHeld (m : ContextMember) (u : W) : Type 0 where
    pub offset : ℤ
    pub before : W
    pub on : Page
    pub listed : list_projects offset before ≡ (page on, u)
    pub holds : In m.graph_ref on.projects

  -- A walk that passes, from whatever page on and whatever CBM answers, has seen the graph.
  pub verify_graph_from-IsHeld :
      (fuel : ℕ) (id : Text) (m : ContextMember) (offset : ℤ) (w u : W)
      → verify_graph_from list_projects fuel id m offset w ≡ some (ok tt, u)
      → IsHeld m u
  unfolding verify_graph_from
  verify_graph_from-IsHeld zero id m offset w u h = absurd (cc)
  verify_graph_from-IsHeld (suc fuel) id m offset w u h =
      go (λ next v. verify_graph_from-IsHeld fuel id m next v u)
        (read_page id m offset (list_projects offset w).0) refl h
    where
      go :
          ((next : ℤ) (v : W)
            → verify_graph_from list_projects fuel id m next v ≡ some (ok tt, u)
            → IsHeld m u)
          → (v : Verdict) → read_page id m offset (list_projects offset w).0 ≡ v
          → ◌≡◌ {A = Option (Result (Unit {0}) × W)}
              (elim v [
                | done r ↦ some (r, (list_projects offset w).1)
                | again next ↦
                    verify_graph_from list_projects fuel id m next (list_projects offset w).1
              ])
              (some (ok tt, u))
          → IsHeld m u
      go later (done r) e k =
          let passed : r ≡ ok tt = ground (arith, k) in
          let there : (list_projects offset w).1 ≡ u = ground (arith, k) in
          let (p, listed, holds) =
            read_page-passes id m offset (list_projects offset w).0 (e ∙ ap done passed) in
          record {
            offset = offset;
            before = w;
            on = p;
            listed = λ i. (listed i, there i);
            holds = holds;
          }
      go later (again next) e k = later next (list_projects offset w).1 k

  -- How a walk over the pages ends.
  pub record IsEnded (m : ContextMember) (out : Option (Result (Unit {0}) × W)) : Type 0 where
    pub result : Result (Unit {0})
    pub after : W
    pub ended : out ≡ some (result, after)
    pub held : result ≡ ok tt → IsHeld m after

  verify_graph_from-IsEnded :
      (n fuel : ℕ) (id : Text) (m : ContextMember) (k : ℕ) (w : W)
      → IsFinite n
      → 1 ≤ fuel
      → n < fuel + k
      → IsEnded m (verify_graph_from list_projects fuel id m (pos k) w)
  unfolding verify_graph_from
  verify_graph_from-IsEnded n zero id m k w fin one enough = absurd (omega arith)
  verify_graph_from-IsEnded n (suc fuel) id m k w fin one enough =
      go (λ j v. verify_graph_from-IsEnded n fuel id m j v fin)
        (read_page id m (pos k) (list_projects (pos k) w).0) refl
    where
      go :
          ((j : ℕ) (v : W)
            → 1 ≤ fuel
            → n < fuel + j
            → IsEnded m (verify_graph_from list_projects fuel id m (pos j) v))
          → (v : Verdict) → read_page id m (pos k) (list_projects (pos k) w).0 ≡ v
          → IsEnded m (elim v [
            | done r ↦ some (r, (list_projects (pos k) w).1)
            | again next ↦
                verify_graph_from list_projects fuel id m next (list_projects (pos k) w).1
          ])
      go later (done r) e = record {
        result = r;
        after = (list_projects (pos k) w).1;
        ended = refl;
        held = λ passed.
            let (p, listed, holds) =
              read_page-passes id m (pos k) (list_projects (pos k) w).0 (e ∙ ap done passed) in
            record {
              offset = pos k;
              before = w;
              on = p;
              listed = λ i. (listed i, (list_projects (pos k) w).1);
              holds = holds;
            };
      }
      go later (again next) e =
          let (p, listed, more, there, same, further) =
            read_page-again id m k (list_projects (pos k) w).0 next e in
          let before_end = fin k w p listed more in
          subst
            (λ x.
              IsEnded m (verify_graph_from list_projects fuel id m x (list_projects (pos k) w).1))
            (sym same) (later there (list_projects (pos k) w).1 (omega arith) (omega arith))

  -- Where CBM promises another page only in front of the end of the `n` projects that it holds, the
  -- walk over the pages ends within `n + 1` of them, and it passes only if a page that was listed
  -- holds the member's graph.
  pub verify_graph-IsEnded :
      (n : ℕ) (id : Text) (m : ContextMember) (w : W)
      → IsFinite n
      → IsEnded m (verify_graph list_projects (suc n) id m w)
  unfolding verify_graph
  verify_graph-IsEnded n id m w fin =
      verify_graph_from-IsEnded n (suc n) id m 0 w fin (omega arith) (omega arith)
