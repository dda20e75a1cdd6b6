-- ===== src/GitSource/Diff/RoundTrip.antt =====
-- parseDiff reads git's diff of one file back.
use version_aware_code_mcp.Prelude.{
  Text, List, [], ◌∷◌, ◌++◌, map, flatten, Option, none, some, Bool, true, false, ◌≡◌, refl, sym,
  ap, ◌∙◌, All, join_on, split_on, split_on-join_on, append_assoc, append-nil, after_prefix,
  has_prefix,
}
use version_aware_code_mcp.Effect.{ok}
use version_aware_code_mcp.Provider.{
  DiffChange, DiffHunk, DiffLine, DiffLineKind, context, added, removed, modified,
}
use version_aware_code_mcp.GitSource.Diff.{
  drop_last_newline, parse_diff_line, Parsed, LineCase, nothing, line_case, add_line, parse_line,
  parse_lines, nothing_parsed, diff_of, parse_diff,
}
use version_aware_code_mcp.GitSource.Diff.Written.{
  WrittenLine, line, note, marker, WrittenHunk, Sides, both_sides, only_new, only_old, WrittenDiff,
  line_text, hunk_texts, mode_texts, binary_texts, texts, output, diff_lines, hunk_said,
  change_said, is_given, diff_said, IsInRange, IsWritable,
}
use version_aware_code_mcp.GitSource.Diff.Headers.{opened, parse-header_text}

drop_last_newline-output : (s : Text) → drop_last_newline (s ++ 10 ∷ []) ≡ s
unfolding drop_last_newline
drop_last_newline-output [] = refl
drop_last_newline-output (c ∷ []) = refl
drop_last_newline-output (c ∷ d ∷ s) = ap (λ x. c ∷ x) (drop_last_newline-output (d ∷ s))

-- The loop's variables, when one file has been seen.
abbrev reading : Bool → DiffChange → Bool → List DiffHunk → Parsed
reading in_hunk change binary hunks = record {
  files = 1;
  in_hunk = in_hunk;
  change = change;
  binary = binary;
  hunks = hunks;
}

add_line_last :
    (l : DiffLine) (hs : List DiffHunk) (h : DiffHunk)
    → add_line l (hs ++ h ∷ []) ≡ hs ++ record h { lines = h.lines ++ l ∷ [] } ∷ []
unfolding add_line
add_line_last l [] h = refl
add_line_last l (k ∷ []) h = refl
add_line_last l (k ∷ m ∷ hs) h = ap (λ x. k ∷ x) (add_line_last l (m ∷ hs) h)

line_case-line : (l : DiffLine) → line_case true (line_text (line l)) ≡ LineCase.hunk_line
unfolding line_case has_prefix line_text
line_case-line l = go l.kind
  where
    go : (k : DiffLineKind) → line_case true (marker k ++ l.content) ≡ LineCase.hunk_line
    go context = refl
    go added = refl
    go removed = refl

parse_diff_line-line : (l : DiffLine) → parse_diff_line (line_text (line l)) ≡ l
unfolding parse_diff_line has_prefix after_prefix line_text
parse_diff_line-line l = go l.kind
  where
    go :
        (k : DiffLineKind)
        → parse_diff_line (marker k ++ l.content) ≡ record { kind = k; content = l.content }
    go context = refl
    go added = refl
    go removed = refl

module _ (path : Text) (change : DiffChange) (binary : Bool) where
  -- A hunk's lines are added to the last hunk, and its notes are passed over.
  parse_lines-line_text :
      (hs : List DiffHunk) (h : WrittenHunk) (done : List DiffLine) (ls : List WrittenLine)
      (rest : List Text)
      → parse_lines path
          (reading true change binary (hs ++ opened h done ∷ []))
          (map line_text ls ++ rest)
        ≡ parse_lines path
            (reading true change binary (hs ++ opened h (done ++ diff_lines ls) ∷ []))
            rest
  unfolding parse_lines parse_line line_text
  parse_lines-line_text hs h done [] rest =
      ap (λ x. parse_lines path (reading true change binary (hs ++ opened h x ∷ [])) rest)
        (sym (append-nil done))
  parse_lines-line_text hs h done (note t ∷ ls) rest = parse_lines-line_text hs h done ls rest
  parse_lines-line_text hs h done (line l ∷ ls) rest =
      rw (line_case-line l, parse_diff_line-line l, add_line_last l hs (opened h done))
        (parse_lines-line_text hs h (done ++ l ∷ []) ls rest
          ∙ ap (λ x. parse_lines path (reading true change binary (hs ++ opened h x ∷ [])) rest)
              (append_assoc done (l ∷ []) (diff_lines ls)))

  -- The hunks one after another.
  diff-hunk_texts :
      (from to : Text) (flag : Bool) (hs : List DiffHunk) (written : List WrittenHunk)
      → All IsInRange written
      → diff_of path from to
          (parse_lines path (reading flag change binary hs) (flatten (map hunk_texts written)))
        ≡ ok (record {
          path = path;
          change = change;
          binary = binary;
          hunks = hs ++ map hunk_said written;
        })
  unfolding parse_lines parse_line line_case has_prefix
  diff-hunk_texts from to flag hs [] r =
      ap (λ x. ok (record { path = path; change = change; binary = binary; hunks = x }))
        (sym (append-nil hs))
  diff-hunk_texts from to flag hs (h ∷ written) r = rw (parse-header_text h r.0) (
      ap (diff_of path from to)
        (parse_lines-line_text hs h [] h.lines (flatten (map hunk_texts written)))
      ∙ diff-hunk_texts from to true (hs ++ hunk_said h ∷ []) written r.1
      ∙ ap (λ x. ok (record { path = path; change = change; binary = binary; hunks = x }))
          (append_assoc hs (hunk_said h ∷ []) (map hunk_said written)))

-- The lines in front of the hunks.
module _ (path : Text) (rest : List Text) where
  parse_lines-mode_texts :
      (sides : Sides)
      → parse_lines path (reading false modified false []) (mode_texts sides ++ rest)
        ≡ parse_lines path (reading false (change_said sides) false []) rest
  unfolding parse_lines parse_line line_case has_prefix
  parse_lines-mode_texts both_sides = refl
  parse_lines-mode_texts (only_new mode) = refl
  parse_lines-mode_texts (only_old mode) = refl

  parse_lines-others :
      (change : DiffChange) (others : List Text)
      → All (λ t. line_case false t ≡ nothing) others
      → parse_lines path (reading false change false []) (others ++ rest)
        ≡ parse_lines path (reading false change false []) rest
  unfolding parse_lines parse_line
  parse_lines-others change [] h = refl
  parse_lines-others change (t ∷ others) h = rw h.0 (parse_lines-others change others h.1)

  parse_lines-binary_texts :
      (change : DiffChange) (binary : Option Text)
      → parse_lines path (reading false change false []) (binary_texts binary ++ rest)
        ≡ parse_lines path (reading false change (is_given binary) []) rest
  unfolding parse_lines parse_line line_case has_prefix
  parse_lines-binary_texts change none = refl
  parse_lines-binary_texts change (some names) = refl

parse_lines-texts :
    (path from to : Text) (d : WrittenDiff)
    → IsWritable d
    → diff_of path from to (parse_lines path nothing_parsed (texts d)) ≡ ok (diff_said path d)
unfolding parse_lines parse_line line_case has_prefix
parse_lines-texts path from to d r =
    let hunks = flatten (map hunk_texts d.hunks) in
    ap (diff_of path from to) (
      parse_lines-mode_texts path (d.others ++ (binary_texts d.binary ++ hunks)) d.sides
      ∙ parse_lines-others path (binary_texts d.binary ++ hunks) (change_said d.sides) d.others
          r.quiet
      ∙ parse_lines-binary_texts path hunks (change_said d.sides) d.binary)
    ∙ diff-hunk_texts path (change_said d.sides) (is_given d.binary) from to false [] d.hunks
        r.in_range

-- git's diff of one file is read as what it says: whether the file is new, gone or changed, whether
-- it is binary, and each hunk with its ranges and its lines, in order; headings, notes and the other
-- lines leave nothing behind. The condition is that no line holds a newline, that the numbers are in
-- the range of an `int`, and that the other lines begin as none of those that parseDiff reads.
pub parse_diff-output :
    (path from to : Text) (d : WrittenDiff)
    → IsWritable d
    → parse_diff (output d) path from to ≡ ok (diff_said path d)
unfolding parse_diff
parse_diff-output path from to d r =
    ap (λ t. diff_of path from to (parse_lines path nothing_parsed (split_on 10 t)))
      (drop_last_newline-output (join_on 10 (texts d)))
    ∙ ap (λ ts. diff_of path from to (parse_lines path nothing_parsed ts))
        (split_on-join_on 10 (texts d) (λ e. cc) r.whole)
    ∙ parse_lines-texts path from to d r
