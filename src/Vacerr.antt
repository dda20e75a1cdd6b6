-- ===== src/Vacerr.antt =====
-- vacerr/vacerr.go: the error model of every tool. The human-readable message is left out; the
-- code and the structured details, which callers branch on, are kept.
use version_aware_code_mcp.Prelude.{Text, ℤ, List, ◌∷◌, Option, none, some, codes}

pub data Code : Type 0 where
  context_not_found : Code
  context_ambiguous : Code
  repository_not_found : Code
  revision_not_found : Code
  symbol_not_found : Code
  symbol_ambiguous : Code
  search_provider_unavailable : Code
  graph_provider_unavailable : Code
  source_mismatch : Code
  invalid_argument : Code
  source_diff_unavailable : Code
  source_history_unavailable : Code
  operation_timeout : Code

-- One candidate of an ambiguous symbol, as `adapters/cbm` lists it.
pub record Candidate : Type 0 where
  pub qualified_name : Text
  pub name : Text
  pub label : Text
  pub path : Text
  pub line : ℤ

-- The values that the program puts into `Details map[string]any`.
pub data Detail : Type 0 where
  text : Text → Detail
  texts : List Text → Detail
  number : ℤ → Detail
  candidates : List Candidate → Detail

-- A later entry replaces an earlier one of the same key, as in a Go map.
abbrev pub Details : Type 0
Details = List (Text × Detail)

pub record Vacerr : Type 0 where
  pub code : Code
  pub details : Details

-- A Go `error`: a `*vacerr.Error`, an error of another type, or `fmt.Errorf` with `%w`.
pub data Failure : Type 0 where
  vac : Vacerr → Failure
  plain : Text → Failure
  wrapped : Failure → Failure

-- `vacerr.New`
abbrev pub new : Code → Details → Failure
new c d = vac (record { code = c; details = d })

-- `vacerr.NewSourceMismatch`: the caller's details come after, and so win.
unfoldable pub new_source_mismatch : Text → Text → Details → Failure
new_source_mismatch declared actual d =
    new source_mismatch
      ((codes "declared_revision", text declared) ∷ (codes "actual_revision", text actual) ∷ d)

-- `errors.As(err, &vErr)` for a `*vacerr.Error`
unfoldable pub as_vacerr : Failure → Option Vacerr
as_vacerr (vac e) = some e
as_vacerr (plain _) = none
as_vacerr (wrapped f) = as_vacerr f
