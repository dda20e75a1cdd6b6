-- ===== src/GitSource/Reading.antt =====
-- Read of adapters/git/git.go: a line range of one file at the commit that the context's revision
-- names.
pub mod Lines
pub mod Slices
pub mod Ranges
use version_aware_code_mcp.Prelude.{
  ℕ, zero, suc, ◌-◌, Text, ℤ, pos, pos_part, ltb_ℤ, List, [], ◌∷◌, ◌++◌, Option, none, some, Bool,
  true, false, ◌||◌, if◌then◌else◌, ◌==◌, codes, length, take, drop, flatten, push_front,
}
use version_aware_code_mcp.Vacerr
use version_aware_code_mcp.Vacerr.{Details, Failure, repository_not_found}
use version_aware_code_mcp.Vacctx.{CodeContext}
use version_aware_code_mcp.Effect.{Result, ok, err, Effect, pure, fail, lift, continue, ◌>>=◌}
use version_aware_code_mcp.Provider.{SourceContent}
use version_aware_code_mcp.Deadline.{Cause, ended, override}
use version_aware_code_mcp.Config.{Repository, lookup}
use version_aware_code_mcp.Resolver.{Git, handle, verdict, verify_worktree}
use version_aware_code_mcp.GitSource.{invalid, text_entry, resolve, tree_entry}
use version_aware_code_mcp.GitSource.Paths.{validate_path}

abbrev pub newline : ℕ
newline = 10

-- `strings.SplitAfter(content, "\n")`: each part keeps its newline.
unfoldable pub split_after : Text → List Text
split_after [] = [] ∷ []
split_after (c ∷ s) =
    let rest = split_after s in if c == newline then (c ∷ []) ∷ rest else push_front c rest

abbrev pub unless_empty : Text → List Text
unless_empty [] = []
unless_empty (c ∷ s) = (c ∷ s) ∷ []

-- The last part is dropped if it is empty.
unfoldable pub drop_empty_last : List Text → List Text
drop_empty_last [] = []
drop_empty_last (l ∷ []) = unless_empty l
drop_empty_last (l ∷ m ∷ rest) = l ∷ drop_empty_last (m ∷ rest)

-- `splitLines`
unfoldable pub split_lines : Text → List Text
unfolding split_after drop_empty_last
split_lines content = drop_empty_last (split_after content)

abbrev pub is_no_range : ℤ → ℤ → Bool
is_no_range start end = ltb_ℤ start (pos 1) || ltb_ℤ end start

abbrev pub range_details : Text → ℤ → ℤ → Details
range_details path start end =
    (codes "path", Vacerr.text path)
    ∷ (codes "start_line", Vacerr.number start)
    ∷ (codes "end_line", Vacerr.number end)
    ∷ []

-- `lines[start-1:end]`
abbrev pub slice : ℤ → ℤ → List Text → List Text
slice start end lines = take (pos_part end - (pos_part start - 1)) (drop (pos_part start - 1) lines)

unfoldable pub read_range : Text → ℤ → ℤ → Text → List Text → Result SourceContent
read_range path start end revision lines =
    if ltb_ℤ (pos (length lines)) end
    then err (
        invalid (
          range_details path start end
          ++ (codes "line_count", Vacerr.number (pos (length lines)))
            ∷ text_entry (codes "revision") revision
            ∷ []))
    else ok (record {
      path = path;
      start_line = start;
      end_line = end;
      content = flatten (slice start end lines);
      revision = revision;
    })

abbrev pub no_file : CodeContext → Text → Text → Failure
no_file c file revision = invalid (
    text_entry (codes "context") c.id
    ∷ text_entry (codes "path") file
    ∷ text_entry (codes "revision") revision
    ∷ [])

abbrev pub unreadable_file : CodeContext → Text → Text → Failure
unreadable_file c file revision = Vacerr.new repository_not_found (
    text_entry (codes "context") c.id
    ∷ text_entry (codes "repository") c.repository
    ∷ text_entry (codes "path") file
    ∷ text_entry (codes "revision") revision
    ∷ [])

abbrev pub not_configured : CodeContext → Failure
not_configured c =
    Vacerr.new repository_not_found
      (text_entry (codes "context") c.id ∷ text_entry (codes "repository") c.repository ∷ [])

module _ {W : Type 0} (g : Git W) where
  -- The verdict over a path that the commit's tree has, and whose content git cannot produce.
  unfoldable pub read_worktree : CodeContext → Text → Text → Text → Effect W SourceContent
  unfolding verify_worktree
  read_worktree c path file revision w =
      handle (verify_worktree g path c w) (λ _. verdict g (unreadable_file c file revision))
        (λ f. verdict g f)

  abbrev pub read_missing : CodeContext → Text → Text → Text → Text → Effect W SourceContent
  read_missing c path file revision [] = verdict g (no_file c file revision)
  read_missing c path file revision (_ ∷ _) = read_worktree c path file revision

  -- `readFailure`
  unfoldable pub read_failure : CodeContext → Text → Text → Text → Effect W SourceContent
  unfolding read_worktree
  read_failure c path file revision w =
      handle (tree_entry g path revision file w) (read_missing c path file revision)
        (λ _. verdict g (no_file c file revision))

  abbrev pub read_failed :
      CodeContext → Text → Text → Text → Option Failure → Effect W SourceContent
  read_failed c path file revision none = read_failure c path file revision
  read_failed c path file revision (some late) = fail late

  unfoldable pub read_at : CodeContext → Text → Text → ℤ → ℤ → Text → Effect W SourceContent
  unfolding read_failure read_range split_lines
  read_at c path file start end revision w =
      handle (g.run path (codes "show" ∷ (revision ++ (codes ":" ++ file)) ∷ []) w)
        (λ blob. lift (read_range file start end revision (split_lines blob)))
        (λ _ v. read_failed c path file revision (ended (g.cause v)) v)

  unfoldable pub read_in : CodeContext → Option Repository → Text → ℤ → ℤ → Effect W SourceContent
  unfolding read_at resolve
  read_in c none file start end = fail (not_configured c)
  read_in c (some repo) file start end =
      resolve g c repo.path >>= λ revision. read_at c repo.path file start end revision

  -- `Provider.Read`
  unfoldable pub read :
      List (Text × Repository) → CodeContext → Text → ℤ → ℤ → Effect W SourceContent
  unfolding read_in validate_path
  read repositories c path start end = lift (validate_path path) >>= λ file.
      if is_no_range start end
      then fail (invalid (range_details file start end))
      else read_in c (lookup c.repository repositories) file start end
