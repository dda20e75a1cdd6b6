-- ===== src/GitSource/Diff/Written.antt =====
-- git's unified diff of one file, as git writes it: the lines in front of the hunks, and the hunks
-- with their notes. This is the output that parseDiff is given.
use version_aware_code_mcp.Prelude.{
  ℕ, ◌≤◌, Text, pos, List, [], ◌∷◌, ◌++◌, map, flatten, Option, none, some, Bool, true, false,
  codes, ◌≡◌, if◌then◌else◌, ◌==◌, Lacks, All, join_on, max_int,
}
use version_aware_code_mcp.Prelude.Numerals.Writing.{numeral}
use version_aware_code_mcp.Provider.{
  SourceDiff, DiffChange, DiffHunk, DiffLine, DiffLineKind, context, added, removed, modified,
}
use version_aware_code_mcp.GitSource.Diff.{nothing, line_case}

-- A line of the diff, or the note "\ No newline at end of file" behind one.
pub data WrittenLine : Type 0 where
  line : DiffLine → WrittenLine
  note : Text → WrittenLine

pub record WrittenHunk : Type 0 where
  pub old_start : ℕ
  pub old_lines : ℕ
  pub new_start : ℕ
  pub new_lines : ℕ
  pub heading : Text
  pub lines : List WrittenLine

-- Whether the file is on both sides, and its mode where it is on one.
pub data Sides : Type 0 where
  both_sides : Sides
  only_new only_old : Text → Sides

pub record WrittenDiff : Type 0 where
  pub names : Text
  pub sides : Sides
  -- "index …", "--- …" and "+++ …"
  pub others : List Text
  pub binary : Option Text
  pub hunks : List WrittenHunk

abbrev pub marker : DiffLineKind → Text
marker context = codes " "
marker added = codes "+"
marker removed = codes "-"

unfoldable pub line_text : WrittenLine → Text
line_text (line l) = marker l.kind ++ l.content
line_text (note t) = codes "\\" ++ t

-- A side of one line is written without its count.
abbrev pub range_text : ℕ → ℕ → Text
range_text start lines =
    if lines == 1 then numeral start else numeral start ++ (codes "," ++ numeral lines)

abbrev pub header_text : WrittenHunk → Text
header_text h =
    codes "@@ -"
    ++ (range_text h.old_start h.old_lines
        ++ (codes " +" ++ (range_text h.new_start h.new_lines ++ (codes " @@" ++ h.heading))))

abbrev pub hunk_texts : WrittenHunk → List Text
hunk_texts h = header_text h ∷ map line_text h.lines

abbrev pub mode_texts : Sides → List Text
mode_texts both_sides = []
mode_texts (only_new mode) = (codes "new file mode " ++ mode) ∷ []
mode_texts (only_old mode) = (codes "deleted file mode " ++ mode) ∷ []

abbrev pub binary_texts : Option Text → List Text
binary_texts none = []
binary_texts (some names) = (codes "Binary files " ++ names) ∷ []

abbrev pub texts : WrittenDiff → List Text
texts d =
    (codes "diff --git " ++ d.names)
    ∷ (mode_texts d.sides
        ++ (d.others ++ (binary_texts d.binary ++ flatten (map hunk_texts d.hunks))))

-- The output, each line with its newline.
abbrev pub output : WrittenDiff → Text
output d = join_on 10 (texts d) ++ 10 ∷ []

-- What the diff says.
abbrev pub diff_lines : List WrittenLine → List DiffLine
diff_lines [] = []
diff_lines (line l ∷ rest) = l ∷ diff_lines rest
diff_lines (note t ∷ rest) = diff_lines rest

abbrev pub hunk_said : WrittenHunk → DiffHunk
hunk_said h = record {
  old_start = pos h.old_start;
  old_lines = pos h.old_lines;
  new_start = pos h.new_start;
  new_lines = pos h.new_lines;
  lines = diff_lines h.lines;
}

abbrev pub change_said : Sides → DiffChange
change_said both_sides = modified
change_said (only_new mode) = added
change_said (only_old mode) = removed

abbrev pub is_given : Option Text → Bool
is_given none = false
is_given (some t) = true

abbrev pub diff_said : Text → WrittenDiff → SourceDiff
diff_said path d = record {
  path = path;
  change = change_said d.sides;
  binary = is_given d.binary;
  hunks = map hunk_said d.hunks;
}

abbrev pub Fits : ℕ → Type 0
Fits n = n ≤ max_int

-- The numbers are in the range of an `int`.
pub record IsInRange (h : WrittenHunk) : Type 0 where
  pub old_start : Fits h.old_start
  pub old_lines : Fits h.old_lines
  pub new_start : Fits h.new_start
  pub new_lines : Fits h.new_lines

-- A diff that can be written: no line holds a newline, and the other lines in front of the hunks
-- begin as none of those that are read.
pub record IsWritable (d : WrittenDiff) : Type 0 where
  pub whole : All (Lacks 10) (texts d)
  pub quiet : All (λ t. line_case false t ≡ nothing) d.others
  pub in_range : All IsInRange d.hunks
