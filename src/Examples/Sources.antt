-- ===== src/Examples/Sources.antt =====
-- The git adapter over a clone that answers each command in its own way.
use version_aware_code_mcp.Prelude.{
  ℕ, suc, Text, pos, List, [], ◌∷◌, ◌++◌, none, codes, ◌≡◌, refl, if◌then◌else◌, text_eq,
  has_prefix, arith, All-Lacks,
}
use version_aware_code_mcp.Prelude.Numerals.Writing.{numeral}
use version_aware_code_mcp.Vacctx.{CodeContext}
use version_aware_code_mcp.Effect.{ok}
use version_aware_code_mcp.Provider.{HistoryQuery, HistoryEntry, context, removed}
use version_aware_code_mcp.Config.{lookup}
use version_aware_code_mcp.Resolver.{Git}
use version_aware_code_mcp.GitSource.Reading.{read}
use version_aware_code_mcp.GitSource.Reading.Ranges.{IsReadFrom, read-IsReadFrom}
use version_aware_code_mcp.GitSource.Diff.{parse_diff, line_case}
use version_aware_code_mcp.GitSource.Diff.Comparing.{IsDiffed, diff, diff-IsDiffed}
use version_aware_code_mcp.GitSource.Diff.Written.{
  line, note, WrittenHunk, both_sides, WrittenDiff, line_text, texts, output, diff_said, IsWritable,
}
use version_aware_code_mcp.GitSource.Diff.RoundTrip.{parse_diff-output}
use version_aware_code_mcp.GitSource.History.{
  Locale, search_history, record_separator, field_separator,
}
use version_aware_code_mcp.GitSource.History.Walking.{IsHistory, search_history-IsHistory}
use version_aware_code_mcp.Examples.{config, member}

-- "@@ -1,2 +1,2 @@ f", an unchanged line, one taken out, and one put in without its newline.
abbrev hunk : WrittenHunk
hunk = record {
  old_start = 1;
  old_lines = 2;
  new_start = 1;
  new_lines = 1;
  heading = codes " f";
  lines =
      line (record { kind = context; content = codes "a" })
      ∷ line (record { kind = removed; content = codes "b" })
      ∷ note (codes " No newline at end of file")
      ∷ [];
}

abbrev changed : WrittenDiff
changed = record {
  names = codes "a/f b/f";
  sides = both_sides;
  others = codes "--- a/f" ∷ codes "+++ b/f" ∷ [];
  binary = none;
  hunks = hunk ∷ [];
}

abbrev log : Text
log =
    record_separator
    ∷ (codes "abc"
        ++ (field_separator
            ++ (codes "me"
                ++ (field_separator
                    ++ (codes "2020"
                        ++ (field_separator
                            ++ (codes "Fix" ++ (field_separator ++ codes "\n\nf\ng\n"))))))))

abbrev answer : List Text → Text
answer [] = []
answer (command ∷ args) =
    if text_eq command (codes "show")
    then codes "one\ntwo\n"
    else if text_eq command (codes "diff")
    then output changed
    else if text_eq command (codes "log")
    then log
    else codes "abc"

abbrev pub clone : Git ℕ
clone = record { run = λ path args n. (ok (answer args), suc n); cause = λ n. none }

abbrev locale : Locale
locale = record { lower = λ s. s; utc = λ s. none }

abbrev old_app : CodeContext
old_app = member (codes "v1") (codes "app") (codes "1") (codes "ga")

abbrev new_app : CodeContext
new_app = member (codes "v2") (codes "app") (codes "3") (codes "gb")

read-IsReadFrom_example :
    IsReadFrom clone config.repositories old_app (codes "f") (pos 2) (pos 2) 0 2 (record {
      path = codes "f";
      start_line = pos 2;
      end_line = pos 2;
      content = codes "two\n";
      revision = codes "abc";
    })
unfolding read lookup
read-IsReadFrom_example =
    read-IsReadFrom clone config.repositories old_app (codes "f") (pos 2) (pos 2) 0 2 _ refl

changed-IsWritable : IsWritable changed
unfolding numeral line_text line_case has_prefix
changed-IsWritable = record {
  whole = All-Lacks 10 (texts changed) refl;
  quiet = (refl, (refl, tt));
  in_range = (
    record {
      old_start = omega arith;
      old_lines = omega arith;
      new_start = omega arith;
      new_lines = omega arith;
    },
    tt,
  );
}

parse_diff-output_example :
    parse_diff (output changed) (codes "f") (codes "x") (codes "y")
    ≡ ok (diff_said (codes "f") changed)
parse_diff-output_example =
    parse_diff-output (codes "f") (codes "x") (codes "y") changed changed-IsWritable

diff-IsDiffed_example :
    IsDiffed clone config.repositories old_app new_app
      (codes "f")
      0
      3
      (diff_said (codes "f") changed)
unfolding diff lookup numeral line_text parse_diff
diff-IsDiffed_example =
    diff-IsDiffed clone config.repositories old_app new_app (codes "f") 0 3
      (diff_said (codes "f") changed) refl

abbrev query : HistoryQuery
query = record { query = codes "Fix"; symbol = []; path = codes "f"; limit = pos 0 }

abbrev entry : HistoryEntry
entry = record {
  commit = codes "abc";
  path = codes "f";
  author = codes "me";
  timestamp = codes "2020";
  message = codes "Fix";
}

search_history-IsHistory_example :
    IsHistory clone locale config.repositories old_app query 0 2 (entry ∷ [])
unfolding search_history lookup
search_history-IsHistory_example =
    search_history-IsHistory clone locale config.repositories old_app query 0 2 (entry ∷ []) refl
