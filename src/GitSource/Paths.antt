-- ===== src/GitSource/Paths.antt =====
-- validatePath of adapters/git/git.go, with `path.Clean` and `path.IsAbs` of the standard library.
pub mod Inside
use version_aware_code_mcp.Prelude.{
  ℕ, zero, suc, Text, List, [], ◌∷◌, ◌++◌, reverse, Bool, true, false, ◌||◌, if◌then◌else◌, codes,
  is_blank, text_eq, has_prefix, split_on, join_on,
}
use version_aware_code_mcp.Vacerr
use version_aware_code_mcp.Vacerr.{Failure}
use version_aware_code_mcp.Effect.{Result, ok, err}
use version_aware_code_mcp.GitSource.{invalid, text_entry}

abbrev pub slash : ℕ
slash = 47

abbrev pub dot_dot : Text
dot_dot = codes ".."

-- What `path.Clean` has written so far: how many ".." it begins with, and the names behind them,
-- the last one first.
pub record Cleaned : Type 0 where
  pub ups : ℕ
  pub names : List Text

-- ".." takes back the last name; where there is none, it is kept, or dropped behind a root.
abbrev pub go_up : Bool → ℕ → List Text → Cleaned
go_up rooted ups (name ∷ names) = record { ups = ups; names = names }
go_up true ups [] = record { ups = ups; names = [] }
go_up false ups [] = record { ups = suc ups; names = [] }

unfoldable pub clean_step : Bool → Cleaned → Text → Cleaned
clean_step rooted c part =
    if text_eq part [] || text_eq part (codes ".")
    then c
    else if text_eq part dot_dot
    then go_up rooted c.ups c.names
    else record c { names = part ∷ c.names }

unfoldable pub clean_parts : Bool → Cleaned → List Text → Cleaned
unfolding clean_step
clean_parts rooted c [] = c
clean_parts rooted c (part ∷ rest) = clean_parts rooted (clean_step rooted c part) rest

abbrev pub repeated : ℕ → Text → List Text
repeated zero t = []
repeated (suc n) t = t ∷ repeated n t

abbrev pub written_parts : Cleaned → List Text
written_parts c = repeated c.ups dot_dot ++ reverse c.names

abbrev pub or_dot : Text → Text
or_dot [] = codes "."
or_dot (c ∷ s) = c ∷ s

abbrev pub is_abs : Text → Bool
is_abs s = has_prefix s (slash ∷ [])

abbrev pub nothing_cleaned : Cleaned
nothing_cleaned = record { ups = 0; names = [] }

-- `path.Clean`
unfoldable pub clean : Text → Text
unfolding clean_parts split_on join_on
clean s =
    let rooted = is_abs s in
    let cleaned =
      join_on slash (written_parts (clean_parts rooted nothing_cleaned (split_on slash s))) in
    if rooted then slash ∷ cleaned else or_dot cleaned

abbrev pub refuse_outside : Text → Text → Result Text
refuse_outside path cleaned =
    if is_abs cleaned
    then err (invalid (text_entry (codes "path") path ∷ []))
    else if text_eq cleaned dot_dot || has_prefix cleaned (codes "../")
    then err (invalid (text_entry (codes "path") path ∷ []))
    else ok cleaned

-- `validatePath`
unfoldable pub validate_path : Text → Result Text
unfolding clean is_blank text_eq has_prefix
validate_path path = if is_blank path then err (invalid []) else refuse_outside path (clean path)
