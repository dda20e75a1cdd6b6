-- ===== src/GitSource/Diff/Comparing.antt =====
-- Diff and emptyDiff of adapters/git/diff.go: two contexts' revisions of one repository are pinned,
-- and one file is compared between the two commits.
use version_aware_code_mcp.Prelude.{
  Text, List, [], ◌∷◌, Option, none, some, false, codes, text_eq, text_eq_iff, ◌≡◌, inl, inr, refl,
  sym, ap, ◌∙◌, if◌then◌else◌, Bool-cases, ◌≢◌, arith,
}
use version_aware_code_mcp.Vacerr
use version_aware_code_mcp.Vacerr.{Failure, repository_not_found}
use version_aware_code_mcp.Vacctx.{CodeContext}
use version_aware_code_mcp.Effect.{ok, Effect, pure, fail, lift, ◌>>=◌, bind-eq-ok, lift-bind-eq-ok}
use version_aware_code_mcp.Provider.{SourceDiff, unchanged}
use version_aware_code_mcp.Config.{Repository, lookup}
use version_aware_code_mcp.Resolver.{Git, handle, verdict}
use version_aware_code_mcp.Resolver.Resolution.{handle-cases}
use version_aware_code_mcp.GitSource.{invalid, text_entry, resolve, tree_entry, commit_of}
use version_aware_code_mcp.GitSource.Paths.{validate_path}
use version_aware_code_mcp.GitSource.Paths.Inside.{IsInside, validate_path-IsInside}
use version_aware_code_mcp.GitSource.Reading.Ranges.{resolve-ok}
use version_aware_code_mcp.GitSource.Diff.{parse_diff}

abbrev pub two_repositories : CodeContext → CodeContext → Failure
two_repositories from to = invalid (
    text_entry (codes "from_context") from.id
    ∷ text_entry (codes "to_context") to.id
    ∷ text_entry (codes "from_repository") from.repository
    ∷ text_entry (codes "to_repository") to.repository
    ∷ [])

abbrev pub no_shared_repository : CodeContext → CodeContext → Failure
no_shared_repository from to = Vacerr.new repository_not_found (
    text_entry (codes "from_context") from.id
    ∷ text_entry (codes "to_context") to.id
    ∷ text_entry (codes "repository") from.repository
    ∷ [])

abbrev pub diff_args : Text → Text → Text → List Text
diff_args old new file =
    codes "diff"
    ∷ codes "--no-color"
    ∷ codes "--no-ext-diff"
    ∷ codes "--no-textconv"
    ∷ codes "--no-renames"
    ∷ old
    ∷ new
    ∷ codes "--"
    ∷ file
    ∷ []

abbrev pub cannot_diff : CodeContext → Text → Text → Text → Failure
cannot_diff from file old new = Vacerr.new repository_not_found (
    text_entry (codes "repository") from.repository
    ∷ text_entry (codes "path") file
    ∷ text_entry (codes "from_revision") old
    ∷ text_entry (codes "to_revision") new
    ∷ [])

abbrev pub on_neither_side : Text → Text → Text → Failure
on_neither_side file old new = invalid (
    text_entry (codes "path") file
    ∷ text_entry (codes "from_revision") old
    ∷ text_entry (codes "to_revision") new
    ∷ [])

abbrev pub unchanged_file : Text → SourceDiff
unchanged_file file = record { path = file; change = unchanged; binary = false; hunks = [] }

module _ {W : Type 0} (g : Git W) where
  abbrev pub unchanged_or_absent : Text → Text → Text → Text → Effect W SourceDiff
  unchanged_or_absent file old new [] = verdict g (on_neither_side file old new)
  unchanged_or_absent file old new (_ ∷ _) = pure (unchanged_file file)

  -- `emptyDiff`
  unfoldable pub empty_diff : Text → Text → Text → Text → Effect W SourceDiff
  empty_diff path file old new w =
      handle (tree_entry g path old file w) (unchanged_or_absent file old new)
        (λ _. verdict g (on_neither_side file old new))

  abbrev pub read_diff : Text → Text → Text → Text → Text → Effect W SourceDiff
  read_diff path file old new [] = empty_diff path file old new
  read_diff path file old new (c ∷ out) = lift (parse_diff (c ∷ out) file old new)

  unfoldable pub diff_at : CodeContext → Text → Text → Text → Text → Effect W SourceDiff
  unfolding empty_diff
  diff_at from path file old new w =
      handle (g.run path (diff_args old new file) w) (read_diff path file old new)
        (λ _. verdict g (cannot_diff from file old new))

  unfoldable pub diff_in :
      CodeContext → CodeContext → Option Repository → Text → Effect W SourceDiff
  unfolding diff_at resolve
  diff_in from to none file = fail (no_shared_repository from to)
  diff_in from to (some repo) file = resolve g from repo.path >>= λ old.
      resolve g to repo.path >>= λ new. diff_at from repo.path file old new

  -- `Provider.Diff`
  unfoldable pub diff :
      List (Text × Repository) → CodeContext → CodeContext → Text → Effect W SourceDiff
  unfolding diff_in validate_path text_eq
  diff repositories from to path = lift (validate_path path) >>= λ file.
      if text_eq from.repository to.repository
      then diff_in from to (lookup from.repository repositories) file
      else fail (two_repositories from to)

  -- What git's answer to a comparison was taken for. No output means that the file is the same on
  -- both sides only if the older side has it.
  pub data IsDiffOf (repo file old new out : Text) (w u : W) (r : SourceDiff) : Type 0 where
    differs :
        out ≢ [] → parse_diff out file old new ≡ ok r → w ≡ u → IsDiffOf repo file old new out w u r
    same :
        (entry : Text)
        → out ≡ []
        → tree_entry g repo old file w ≡ (ok entry, u)
        → entry ≢ []
        → r ≡ unchanged_file file
        → IsDiffOf repo file old new out w u r

  unchanged-entry :
      (file old new entry : Text) (w u : W) (r : SourceDiff)
      → unchanged_or_absent file old new entry w ≡ (ok r, u)
      → (entry ≢ []) × (unchanged_file file ≡ r) × (w ≡ u)
  unchanged-entry file old new [] w u r h = absurd (cc (ap (λ x. x.0) h))
  unchanged-entry file old new (c ∷ entry) w u r h = ((λ e. cc), ground arith, ap (λ x. x.1) h)

  read_diff-IsDiffOf :
      (repo file old new out : Text) (w u : W) (r : SourceDiff)
      → read_diff repo file old new out w ≡ (ok r, u)
      → IsDiffOf repo file old new out w u r
  unfolding empty_diff
  read_diff-IsDiffOf repo file old new (c ∷ out) w u r h =
      IsDiffOf.differs (λ e. cc) (ap (λ x. x.0) h) (ap (λ x. x.1) h)
  read_diff-IsDiffOf repo file old new [] w u r h =
      elim (handle-cases (tree_entry g repo old file w) _ _ h) [
        | inl (entry, v, e, k) ↦
            let (some_entry, kept, there) = unchanged-entry file old new entry v u r k in
            IsDiffOf.same entry refl (e ∙ ap (λ x. (ok entry, x)) there) some_entry (sym kept)
        | inr (f, v, e, k) ↦ absurd (cc (ap (λ x. x.0) k))
      ]

module _ {W : Type 0} (g : Git W) (repositories : List (Text × Repository)) where
  -- What a comparison has done: one repository, both revisions pinned to commits in it, one after
  -- the other, and the file inside it compared between exactly those commits.
  pub record IsDiffed (from to : CodeContext) (path : Text) (w u : W) (r : SourceDiff)
      : Type 0 where
    pub one_repository : from.repository ≡ to.repository
    pub file : Text
    pub accepted : validate_path path ≡ ok file
    pub inside : IsInside file
    pub repository : Repository
    pub configured : lookup from.repository repositories ≡ some repository
    pub old : Text
    pub new : Text
    pub after_old : W
    pub after_new : W
    pub after_run : W
    pub old_pinned : commit_of g repository.path from.revision w ≡ (ok old, after_old)
    pub new_pinned : commit_of g repository.path to.revision after_old ≡ (ok new, after_new)
    pub out : Text
    pub shown : g.run repository.path (diff_args old new file) after_new ≡ (ok out, after_run)
    pub answer : IsDiffOf g repository.path file old new out after_run u r

  diff_in-IsDiffed :
      (from to : CodeContext) (o : Option Repository) (path file : Text) (w u : W) (r : SourceDiff)
      → from.repository ≡ to.repository
      → validate_path path ≡ ok file
      → lookup from.repository repositories ≡ o
      → diff_in g from to o file w ≡ (ok r, u)
      → IsDiffed from to path w u r
  unfolding diff_in diff_at
  diff_in-IsDiffed from to none path file w u r one a o h = absurd (cc (ap (λ x. x.0) h))
  diff_in-IsDiffed from to (some repo) path file w u r one a o h =
      let (old, v, old_resolved, rest) = bind-eq-ok (resolve g from repo.path) _ w h in
      let (new, x, new_resolved, last) = bind-eq-ok (resolve g to repo.path) _ v rest in
      elim (handle-cases (g.run repo.path (diff_args old new file) x) _ _ last) [
        | inl (out, y, shown, k) ↦ record {
          one_repository = one;
          file = file;
          accepted = a;
          inside = validate_path-IsInside path file a;
          repository = repo;
          configured = o;
          old = old;
          new = new;
          after_old = v;
          after_new = x;
          after_run = y;
          old_pinned = resolve-ok g from repo.path old w v old_resolved;
          new_pinned = resolve-ok g to repo.path new v x new_resolved;
          out = out;
          shown = shown;
          answer = read_diff-IsDiffOf g repo.path file old new out y u r k;
        }
        | inr (f, y, _, k) ↦ absurd (cc (ap (λ z. z.0) k))
      ]

  -- A comparison that succeeds pinned both contexts' revisions to commits of one configured
  -- repository, the same for both, and reports what git printed for one file inside it between
  -- exactly those commits; where git printed nothing, the older commit has the file, and it is
  -- reported unchanged.
  pub diff-IsDiffed :
      (from to : CodeContext) (path : Text) (w u : W) (r : SourceDiff)
      → diff g repositories from to path w ≡ (ok r, u)
      → IsDiffed from to path w u r
  unfolding diff
  diff-IsDiffed from to path w u r h =
      let (file, accepted, rest) = lift-bind-eq-ok (validate_path path) _ w h in
      elim (Bool-cases (text_eq from.repository to.repository)) [
        | inl one ↦
            diff_in-IsDiffed from to (lookup from.repository repositories) path file w u r
              ((text_eq_iff from.repository to.repository).0 one) accepted refl (rw one at rest)
        | inr two ↦ absurd (cc (ap (λ x. x.0) (rw two at rest)))
      ]
