-- ===== src/Vacctx.antt =====
-- vacctx/vacctx.go: the version scope of every result, and the set of scopes one context id names.
use version_aware_code_mcp.Prelude.{Text, List}

pub record CodeContext : Type 0 where
  pub id : Text
  pub repository : Text
  pub branch : Text
  pub revision : Text
  pub graph_ref : Text

pub record Workspace : Type 0 where
  pub id : Text
  pub members : List CodeContext
