-- ===== src/GitSource.antt =====
-- adapters/git: the source provider over a git clone. The `git` command and the clock are those of
-- the resolver's `Git`, the parameter through which the program reaches them. This module has what
-- reading, comparing and searching share; the three are in the modules below.
pub mod Paths
pub mod Reading
pub mod Diff
pub mod History
use version_aware_code_mcp.Prelude.{
  Text, List, [], ◌∷◌, ◌++◌, Option, none, some, codes, trim_space,
}
use version_aware_code_mcp.Vacerr
use version_aware_code_mcp.Vacerr.{
  Details, Failure, invalid_argument, repository_not_found, revision_not_found,
}
use version_aware_code_mcp.Vacctx.{CodeContext}
use version_aware_code_mcp.Effect.{Result, ok, err, Effect, pure, fail, continue, ◌>>=◌}
use version_aware_code_mcp.Resolver.{Git, handle, verdict, cannot_read, no_revision}

abbrev pub invalid : Details → Failure
invalid details = Vacerr.new invalid_argument details

abbrev pub text_entry : Text → Text → Text × Vacerr.Detail
text_entry key value = (key, Vacerr.text value)

module _ {W : Type 0} (g : Git W) where
  -- `gitLine`
  abbrev pub git_line : Text → List Text → Effect W Text
  git_line path args = g.run path args >>= λ out. pure (trim_space out)

  abbrev pub commit_of : Text → Text → Effect W Text
  commit_of path rev = git_line path (
      codes "rev-parse"
      ∷ codes "--verify"
      ∷ codes "--end-of-options"
      ∷ (rev ++ codes "^{commit}")
      ∷ [])

  -- `Provider.resolve`: a failure is told apart by a second command, and the clock outranks both.
  unfoldable pub resolve : CodeContext → Text → Effect W Text
  resolve c path w =
      handle (commit_of path c.revision w) (λ revision. pure revision)
        (λ _ v.
          handle (git_line path (codes "rev-parse" ∷ codes "--git-dir" ∷ []) v)
            (λ _. verdict g (no_revision c.id c path)) (λ _. verdict g (cannot_read c.id c path)))

  abbrev pub tree_entry : Text → Text → Text → Effect W Text
  tree_entry path revision file =
      git_line path (codes "ls-tree" ∷ codes "--name-only" ∷ revision ∷ codes "--" ∷ file ∷ [])
