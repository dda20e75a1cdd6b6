-- ===== src/GitSource/Reading/Ranges.antt =====
-- What a read returns is exactly the lines that it says it is.
use version_aware_code_mcp.Prelude.{
  Text, ℤ, List, [], ◌∷◌, ◌++◌, Option, none, some, false, ◌≡◌, inl, inr, refl, sym, ap, ap₂, subst,
  ◌∙◌, codes, Bool-cases,
}
use version_aware_code_mcp.Vacctx.{CodeContext}
use version_aware_code_mcp.Vacerr.{Failure}
use version_aware_code_mcp.Effect.{ok, bind-eq-ok, lift-bind-eq-ok}
use version_aware_code_mcp.Provider.{SourceContent}
use version_aware_code_mcp.Deadline.{ended}
use version_aware_code_mcp.Config.{Repository, lookup}
use version_aware_code_mcp.Resolver.{Git, verdict, verify_worktree}
use version_aware_code_mcp.Resolver.Resolution.{handle-cases}
use version_aware_code_mcp.GitSource.{resolve, commit_of, git_line, tree_entry}
use version_aware_code_mcp.GitSource.Paths.{validate_path}
use version_aware_code_mcp.GitSource.Paths.Inside.{IsInside, validate_path-IsInside}
use version_aware_code_mcp.GitSource.Reading.{
  is_no_range, read_worktree, read_missing, read_failure, read_failed, read_at, read_in, read,
}
use version_aware_code_mcp.GitSource.Reading.Slices.{IsRange, read_range-IsExact}

module _ {W : Type 0} (g : Git W) where
  verdict-fails : {A : Type 0} (f : Failure) (w u : W) (a : A) → verdict g f w ≡ (ok a, u) → ⊥
  verdict-fails f w u a h = cc (ap (λ x. x.0) h)

  read_missing-fails :
      (c : CodeContext) (path file revision entry : Text) (w u : W) (r : SourceContent)
      → read_missing g c path file revision entry w ≡ (ok r, u)
      → ⊥
  unfolding read_worktree
  read_missing-fails c path file revision [] w u r h = cc (ap (λ x. x.0) h)
  read_missing-fails c path file revision (_ ∷ _) w u r h =
      elim (handle-cases (verify_worktree g path c w) _ _ h) [
        | inl (a, v, e, k) ↦ cc (ap (λ x. x.0) k)
        | inr (f, v, e, k) ↦ cc (ap (λ x. x.0) k)
      ]

  -- A failed read never turns into an answer: no file of the working tree is served.
  read_failed-fails :
      (c : CodeContext) (path file revision : Text) (late : Option Failure) (w u : W)
      (r : SourceContent)
      → read_failed g c path file revision late w ≡ (ok r, u)
      → ⊥
  unfolding read_failure
  read_failed-fails c path file revision (some late) w u r h = cc (ap (λ x. x.0) h)
  read_failed-fails c path file revision none w u r h =
      elim (handle-cases (tree_entry g path revision file w) _ _ h) [
        | inl (entry, v, e, k) ↦ read_missing-fails c path file revision entry v u r k
        | inr (f, v, e, k) ↦ cc (ap (λ x. x.0) k)
      ]

  pub resolve-ok :
      (c : CodeContext) (path revision : Text) (w u : W)
      → resolve g c path w ≡ (ok revision, u)
      → commit_of g path c.revision w ≡ (ok revision, u)
  unfolding resolve
  resolve-ok c path revision w u h = elim (handle-cases (commit_of g path c.revision w) _ _ h) [
    | inl (a, v, e, k) ↦ e ∙ k
    | inr (f, v, e, k) ↦
        elim (handle-cases (git_line g path (codes "rev-parse" ∷ codes "--git-dir" ∷ []) v) _ _ k) [
          | inl (a, v', e', k') ↦ absurd (cc (ap (λ x. x.0) k'))
          | inr (f', v', e', k') ↦ absurd (cc (ap (λ x. x.0) k'))
        ]
  ]

module _ {W : Type 0} (g : Git W) (repositories : List (Text × Repository)) where
  -- What a read has done: the file is inside the context's own repository, the revision is the
  -- commit that git named for the context's, and the content is the lines from `start` to `end`
  -- of what git has for the file at that commit.
  pub record IsReadFrom (c : CodeContext) (path : Text) (start end : ℤ) (w u : W)
      (r : SourceContent) : Type 0 where
    pub accepted : validate_path path ≡ ok r.path
    pub inside : IsInside r.path
    pub repository : Repository
    pub configured : lookup c.repository repositories ≡ some repository
    pub after : W
    pub pinned : commit_of g repository.path c.revision w ≡ (ok r.revision, after)
    pub blob : Text
    pub shown :
        g.run repository.path (codes "show" ∷ (r.revision ++ (codes ":" ++ r.path)) ∷ []) after
        ≡ (ok blob, u)
    pub start_kept : r.start_line ≡ start
    pub end_kept : r.end_line ≡ end
    pub range : IsRange blob start end r.content

  read_in-IsReadFrom :
      (c : CodeContext) (o : Option Repository) (path file : Text) (start end : ℤ) (w u : W)
      (r : SourceContent)
      → validate_path path ≡ ok file
      → is_no_range start end ≡ false
      → lookup c.repository repositories ≡ o
      → read_in g c o file start end w ≡ (ok r, u)
      → IsReadFrom c path start end w u r
  unfolding read_in read_at
  read_in-IsReadFrom c none path file start end w u r a n o h = absurd (cc (ap (λ x. x.0) h))
  read_in-IsReadFrom c (some repo) path file start end w u r a n o h =
      let (revision, v, resolved, rest) = bind-eq-ok (resolve g c repo.path) _ w h in
      elim (handle-cases (g.run repo.path (codes "show" ∷ (revision ++ (codes ":" ++ file)) ∷ []) v)
        _ _ rest) [
          | inl (blob, v', shown, k) ↦
              let x = read_range-IsExact file blob revision start end r n (ap (λ y. y.0) k) in
              record {
                accepted = a ∙ ap ok (sym x.path_kept);
                inside = subst IsInside (sym x.path_kept) (validate_path-IsInside path file a);
                repository = repo;
                configured = o;
                after = v;
                pinned =
                    resolve-ok g c repo.path revision w v resolved
                    ∙ ap (λ y. (ok y, v)) (sym x.revision_kept);
                blob = blob;
                shown =
                    ap₂ (λ y z. g.run repo.path (codes "show" ∷ (y ++ (codes ":" ++ z)) ∷ []) v)
                      x.revision_kept x.path_kept
                    ∙ shown
                    ∙ ap (λ y. (ok blob, y.1)) k;
                start_kept = x.start_kept;
                end_kept = x.end_kept;
                range = x.range;
              }
          | inr (f, v', _, k) ↦
              absurd (read_failed-fails g c repo.path file revision (ended (g.cause v')) v' u r k)
        ]

  -- A read that succeeds returns exactly the lines from `start` to `end` of the file, as git has
  -- it at the commit that the context's revision names, in the context's own repository; the range
  -- is inside the file, and the file inside the repository.
  pub read-IsReadFrom :
      (c : CodeContext) (path : Text) (start end : ℤ) (w u : W) (r : SourceContent)
      → read g repositories c path start end w ≡ (ok r, u)
      → IsReadFrom c path start end w u r
  unfolding read
  read-IsReadFrom c path start end w u r h =
      let (file, accepted, rest) = lift-bind-eq-ok (validate_path path) _ w h in
      elim (Bool-cases (is_no_range start end)) [
        | inl bad ↦ absurd (cc (ap (λ x. x.0) (rw bad at rest)))
        | inr good ↦
            read_in-IsReadFrom c (lookup c.repository repositories) path file start end w u r
              accepted good refl (rw good at rest)
      ]
