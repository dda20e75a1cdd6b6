-- ===== src/Engine/Compare.antt =====
-- engine/comparison.go and engine/compare_code.go: the two sides of a comparison, and one file
-- compared in two versions.
pub mod Changes
use version_aware_code_mcp.Prelude.{
  ℕ, Text, List, [], ◌∷◌, Option, none, some, Bool, true, false, if◌then◌else◌, not, codes, text_eq,
}
use version_aware_code_mcp.Vacerr
use version_aware_code_mcp.Vacerr.{
  Failure, Details, invalid_argument, repository_not_found, source_diff_unavailable,
}
use version_aware_code_mcp.Vacctx.{CodeContext}
use version_aware_code_mcp.Effect.{Result, ok, err, Effect, pure, fail, lift, continue, ◌>>=◌}
use version_aware_code_mcp.Provider.{
  SourceProvider, SourceDiffer, SourceDiff, DiffChange, DiffHunk, added, removed, modified,
  unchanged,
}
use version_aware_code_mcp.Engine.{
  Engine, Answer, resolve, select_members, repository_required, single, only_member, in_one_member,
  no_answer,
}

-- The answer of one version. The absent side is the zero value.
abbrev pub ComparisonSide : Type 0
ComparisonSide = Answer

abbrev pub has_members : List CodeContext → Bool
has_members [] = false
has_members (_ ∷ _) = true

-- `ComparisonSide.Present`
abbrev pub present : ComparisonSide → Bool
present side = has_members side.workspace.members

pub data CodeChange : Type 0 where
  code_unchanged code_modified code_added code_removed : CodeChange

pub data SymbolPresence : Type 0 where
  presence_both presence_to_only presence_from_only : SymbolPresence

module _ {W : Type 0} where
  unfoldable pub member_to_compare : Engine W → Text → Text → Text → Effect W CodeContext
  member_to_compare e side id repository = resolve e id >>= λ workspace.
      lift (select_members id repository workspace) >>= λ members. lift (
        only_member (repository_required id members ((codes "side", Vacerr.text side) ∷ []))
          (single members))

pub record CompareCodeRequest : Type 0 where
  pub from_context : Text
  pub to_context : Text
  pub repository : Text
  pub path : Text

pub record CompareCodeResult : Type 0 where
  pub from : ComparisonSide
  pub to : ComparisonSide
  pub path : Text
  pub change : CodeChange
  pub hunks : List DiffHunk
  pub binary : Bool

unfoldable pub code_change : DiffChange → Option CodeChange
code_change unchanged = some code_unchanged
code_change modified = some code_modified
code_change added = some code_added
code_change removed = some code_removed
code_change (DiffChange.other _) = none

-- The string that a change is on the wire.
abbrev pub change_text : DiffChange → Text
change_text unchanged = codes "UNCHANGED"
change_text modified = codes "MODIFIED"
change_text added = codes "ADDED"
change_text removed = codes "REMOVED"
change_text (DiffChange.other t) = t

abbrev pub from_side : CodeChange → CodeContext → ComparisonSide
from_side code_added c = no_answer
from_side _ c = in_one_member c []

abbrev pub to_side : CodeChange → CodeContext → ComparisonSide
to_side code_removed c = no_answer
to_side _ c = in_one_member c []

abbrev pub diff_result :
    CompareCodeRequest
    → CodeContext
    → CodeContext
    → SourceDiff
    → Option CodeChange
    → Result CompareCodeResult
diff_result req from to diff none = err (
    Vacerr.new source_diff_unavailable (
      (codes "from_context", Vacerr.text req.from_context)
      ∷ (codes "to_context", Vacerr.text req.to_context)
      ∷ (codes "path", Vacerr.text req.path)
      ∷ (codes "change", Vacerr.text (change_text diff.change))
      ∷ []))
diff_result req from to diff (some change) = ok (record {
  from = from_side change from;
  to = to_side change to;
  path = diff.path;
  change = change;
  hunks = diff.hunks;
  binary = diff.binary;
})

abbrev pub path_details : CompareCodeRequest → Details
path_details req =
    (codes "from_context", Vacerr.text req.from_context)
    ∷ (codes "to_context", Vacerr.text req.to_context)
    ∷ (codes "path", Vacerr.text req.path)
    ∷ []

module _ {W : Type 0} where
  unfoldable pub diff_capability :
      Option (SourceDiffer W)
      → CompareCodeRequest
      → CodeContext
      → CodeContext
      → Effect W CompareCodeResult
  unfolding code_change
  diff_capability none req from to = fail (Vacerr.new source_diff_unavailable (path_details req))
  diff_capability (some differ) req from to = differ from to req.path >>= λ diff.
      lift (diff_result req from to diff (code_change diff.change))

  unfoldable pub diff_with :
      Option (SourceProvider W)
      → CompareCodeRequest
      → CodeContext
      → CodeContext
      → Effect W CompareCodeResult
  unfolding diff_capability
  diff_with none req from to = fail (Vacerr.new repository_not_found (path_details req))
  diff_with (some p) req from to = diff_capability p.differ req from to

  unfoldable pub compare_sides :
      Engine W → CompareCodeRequest → CodeContext → CodeContext → Effect W CompareCodeResult
  unfolding diff_with
  compare_sides e req from to w =
      if text_eq from.repository to.repository
      then diff_with e.source req from to w
      else fail
          (Vacerr.new invalid_argument (
            (codes "from_context", Vacerr.text req.from_context)
            ∷ (codes "to_context", Vacerr.text req.to_context)
            ∷ (codes "from_repository", Vacerr.text from.repository)
            ∷ (codes "to_repository", Vacerr.text to.repository)
            ∷ []))
          w

  unfoldable pub compare_code : Engine W → CompareCodeRequest → Effect W CompareCodeResult
  unfolding compare_sides member_to_compare
  compare_code e req =
      member_to_compare e (codes "from") req.from_context req.repository >>= λ from.
      member_to_compare e (codes "to") req.to_context req.repository >>= λ to.
      compare_sides e req from to
