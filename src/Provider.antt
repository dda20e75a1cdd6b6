-- ===== src/Provider.antt =====
-- provider/provider.go: the interfaces the engine is built over, and the values they exchange.
-- An interface is a record of operations over the outside world's state `W`; a capability that
-- the program finds by a type assertion is an `Option`, and so is `io.Closer`.
use version_aware_code_mcp.Prelude.{Text, ℤ, Bool, List, Option}
use version_aware_code_mcp.Effect.{Effect}
use version_aware_code_mcp.Vacctx.{CodeContext, Workspace}

pub record SearchResult : Type 0 where
  pub path : Text
  pub line : ℤ
  pub snippet : Text

-- `Direction` is a string, so a caller may hold another one than the two the program knows.
pub data Direction : Type 0 where
  callers : Direction
  callees : Direction
  other : Text → Direction

pub record TraceRequest : Type 0 where
  pub symbol : Text
  pub direction : Direction
  pub depth : ℤ

pub record CallEdge : Type 0 where
  pub caller : Text
  pub callee : Text
  pub path : Text
  pub line : ℤ

pub record CallGraph : Type 0 where
  pub symbol : Text
  pub edges : List CallEdge

pub record SourceContent : Type 0 where
  pub path : Text
  pub start_line : ℤ
  pub end_line : ℤ
  pub content : Text
  pub revision : Text

-- `DiffChange` is a string too.
pub data DiffChange : Type 0 where
  added removed modified unchanged : DiffChange
  other : Text → DiffChange

pub data DiffLineKind : Type 0 where
  context added removed : DiffLineKind

pub record DiffLine : Type 0 where
  pub kind : DiffLineKind
  pub content : Text

pub record DiffHunk : Type 0 where
  pub old_start : ℤ
  pub old_lines : ℤ
  pub new_start : ℤ
  pub new_lines : ℤ
  pub lines : List DiffLine

pub record SourceDiff : Type 0 where
  pub path : Text
  pub change : DiffChange
  pub binary : Bool
  pub hunks : List DiffHunk

pub record HistoryQuery : Type 0 where
  pub query : Text
  pub symbol : Text
  pub path : Text
  pub limit : ℤ

pub record HistoryEntry : Type 0 where
  pub commit : Text
  pub path : Text
  pub author : Text
  pub timestamp : Text
  pub message : Text

abbrev pub Closer : Type 0 → Type 0
Closer W = Option (Effect W (Unit {0}))

pub record SearchProvider (W : Type 0) : Type 0 where
  pub search : CodeContext → Text → Effect W (List SearchResult)
  pub closer : Closer W

pub record GraphProvider (W : Type 0) : Type 0 where
  pub trace_calls : CodeContext → TraceRequest → Effect W CallGraph
  pub closer : Closer W

abbrev pub SourceDiffer : Type 0 → Type 0
SourceDiffer W = CodeContext → CodeContext → Text → Effect W SourceDiff

abbrev pub HistoryProvider : Type 0 → Type 0
HistoryProvider W = CodeContext → HistoryQuery → Effect W (List HistoryEntry)

pub record SourceProvider (W : Type 0) : Type 0 where
  pub read : CodeContext → Text → ℤ → ℤ → Effect W SourceContent
  pub differ : Option (SourceDiffer W)
  pub history : Option (HistoryProvider W)
  pub closer : Closer W

-- engine.go's `ContextSource`
pub record ContextSource (W : Type 0) : Type 0 where
  pub contexts : Effect W (List Workspace)
  pub resolve : Text → Effect W Workspace
  pub closer : Closer W
