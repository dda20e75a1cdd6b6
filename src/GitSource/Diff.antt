-- ===== src/GitSource/Diff.antt =====
-- adapters/git/diff.go: one file compared between two commits, and git's unified diff read into
-- hunks.
pub mod Comparing
pub mod Written
pub mod Headers
pub mod RoundTrip
use version_aware_code_mcp.Prelude.{
  ℕ, suc, Text, ℤ, pos, List, [], ◌∷◌, ◌++◌, Option, none, some, Bool, true, false, if◌then◌else◌,
  ◌==◌, codes, text_eq, has_prefix, after_prefix, trim_prefix, split_on, cut, atoi,
}
use version_aware_code_mcp.Vacerr
use version_aware_code_mcp.Vacerr.{Details, Failure, repository_not_found}
use version_aware_code_mcp.Vacctx.{CodeContext}
use version_aware_code_mcp.Effect.{Result, ok, err}
use version_aware_code_mcp.Provider.{
  SourceDiff, DiffChange, DiffHunk, DiffLine, DiffLineKind, context, added, removed, modified,
}
use version_aware_code_mcp.GitSource.{invalid, text_entry}

abbrev pub newline : Text
newline = codes "\n"

-- `strings.TrimSuffix(s, "\n")`
unfoldable pub drop_last_newline : Text → Text
drop_last_newline [] = []
drop_last_newline (c ∷ []) = if c == 10 then [] else c ∷ []
drop_last_newline (c ∷ d ∷ s) = c ∷ drop_last_newline (d ∷ s)

abbrev pub counted : ℤ → Option ℤ → Option (ℤ × ℤ)
counted start none = none
counted start (some lines) = some (start, lines)

abbrev pub started : Option ℤ → (ℤ → Option (ℤ × ℤ)) → Option (ℤ × ℤ)
started none k = none
started (some start) k = k start

abbrev pub range_of : Text → Option (Text × Text) → Option (ℤ × ℤ)
range_of t none = started (atoi t) (λ start. some (start, pos 1))
range_of t (some (start, lines)) = started (atoi start) (λ n. counted n (atoi lines))

-- `parseHunkRange`
unfoldable pub parse_hunk_range : Text → Option (ℤ × ℤ)
unfolding cut atoi
parse_hunk_range t = range_of t (cut (codes ",") t)

abbrev pub unreadable_diff : Text → Text → Failure
unreadable_diff line path =
    Vacerr.new repository_not_found
      (text_entry (codes "path") path ∷ text_entry (codes "line") line ∷ [])

abbrev pub hunk_of : Option (ℤ × ℤ) → Option (ℤ × ℤ) → Option DiffHunk
hunk_of none new = none
hunk_of (some old) none = none
hunk_of (some old) (some new) = some (record {
  old_start = old.0;
  old_lines = old.1;
  new_start = new.0;
  new_lines = new.1;
  lines = [];
})

abbrev pub ranges_of : Option (Text × Text) → Option DiffHunk
ranges_of none = none
ranges_of (some (old, new)) =
    if has_prefix old (codes "-")
    then hunk_of (parse_hunk_range (trim_prefix old (codes "-"))) (parse_hunk_range new)
    else none

abbrev pub header_of : Option (Text × Text) → Option DiffHunk
header_of none = none
header_of (some (ranges, heading)) = ranges_of (cut (codes " +") ranges)

-- `parseHunkHeader`; `none` is `unreadableDiff`.
unfoldable pub parse_hunk_header : Text → Option DiffHunk
unfolding parse_hunk_range has_prefix after_prefix
parse_hunk_header line = header_of (cut (codes " @@") (trim_prefix line (codes "@@ ")))

-- `parseDiffLine`
unfoldable pub parse_diff_line : Text → DiffLine
unfolding has_prefix after_prefix
parse_diff_line line =
    if has_prefix line (codes "+")
    then record { kind = added; content = trim_prefix line (codes "+") }
    else if has_prefix line (codes "-")
    then record { kind = removed; content = trim_prefix line (codes "-") }
    else record { kind = context; content = trim_prefix line (codes " ") }

-- The variables of the loop of `parseDiff`.
pub record Parsed : Type 0 where
  pub files : ℕ
  pub in_hunk : Bool
  pub change : DiffChange
  pub binary : Bool
  pub hunks : List DiffHunk

-- The cases of the loop's `switch`.
pub data LineCase : Type 0 where
  file_header hunk_header note hunk_line added_mode deleted_mode binary_note nothing : LineCase

unfoldable pub line_case : Bool → Text → LineCase
unfolding has_prefix
line_case in_hunk line =
    if has_prefix line (codes "diff --git ")
    then file_header
    else if has_prefix line (codes "@@")
    then hunk_header
    else if in_hunk
    then (if has_prefix line (codes "\\") then note else hunk_line)
    else if has_prefix line (codes "new file mode ")
    then added_mode
    else if has_prefix line (codes "deleted file mode ")
    then deleted_mode
    else if has_prefix line (codes "Binary files ")
    then binary_note
    else nothing

-- `hunk.Lines = append(hunk.Lines, line)` on the last hunk.
unfoldable pub add_line : DiffLine → List DiffHunk → List DiffHunk
add_line l [] = []
add_line l (h ∷ []) = record h { lines = h.lines ++ l ∷ [] } ∷ []
add_line l (h ∷ k ∷ rest) = h ∷ add_line l (k ∷ rest)

abbrev pub with_hunk : Text → Text → Parsed → Option DiffHunk → Result Parsed
with_hunk path line p none = err (unreadable_diff line path)
with_hunk path line p (some h) = ok (record p { hunks = p.hunks ++ h ∷ []; in_hunk = true })

unfoldable pub parse_line : Text → Parsed → Text → LineCase → Result Parsed
unfolding parse_hunk_header parse_diff_line add_line
parse_line path p line file_header = ok (record p { files = suc p.files; in_hunk = false })
parse_line path p line hunk_header = with_hunk path line p (parse_hunk_header line)
parse_line path p line note = ok p
parse_line path p line hunk_line = ok (record p { hunks = add_line (parse_diff_line line) p.hunks })
parse_line path p line added_mode = ok (record p { change = added })
parse_line path p line deleted_mode = ok (record p { change = removed })
parse_line path p line binary_note = ok (record p { binary = true })
parse_line path p line nothing = ok p

abbrev pub then_parse : Result Parsed → (Parsed → Result Parsed) → Result Parsed
then_parse (ok p) k = k p
then_parse (err f) k = err f

unfoldable pub parse_lines : Text → Parsed → List Text → Result Parsed
unfolding parse_line line_case
parse_lines path p [] = ok p
parse_lines path p (line ∷ rest) =
    then_parse (parse_line path p line (line_case p.in_hunk line)) (λ q. parse_lines path q rest)

abbrev pub nothing_parsed : Parsed
nothing_parsed = record {
  files = 0;
  in_hunk = false;
  change = modified;
  binary = false;
  hunks = [];
}

abbrev pub not_one_file : Text → Text → Text → ℕ → Failure
not_one_file path from to files = invalid (
    text_entry (codes "path") path
    ∷ (codes "changed_files", Vacerr.number (pos files))
    ∷ text_entry (codes "from_revision") from
    ∷ text_entry (codes "to_revision") to
    ∷ [])

abbrev pub diff_of : Text → Text → Text → Result Parsed → Result SourceDiff
diff_of path from to (err f) = err f
diff_of path from to (ok p) =
    if p.files == 1
    then ok (record { path = path; change = p.change; binary = p.binary; hunks = p.hunks })
    else err (not_one_file path from to p.files)

-- `parseDiff`
unfoldable pub parse_diff : Text → Text → Text → Text → Result SourceDiff
unfolding parse_lines drop_last_newline split_on
parse_diff out path from to =
    diff_of path from to (parse_lines path nothing_parsed (split_on 10 (drop_last_newline out)))
