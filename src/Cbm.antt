-- ===== src/Cbm.antt =====
-- adapters/cbm/cbm.go: the graph provider over codebase-memory-mcp. This module has the payloads and
-- one query; the walk is in the module below. The process that answers (backend.go's `call`),
-- `regexp.QuoteMeta` and the clock are parameters, as is `encoding/json`.
pub mod Tracing
use version_aware_code_mcp.Prelude.{
  ℕ, zero, suc, Text, ℤ, pos, List, [], ◌∷◌, ◌++◌, Option, none, some, Bool, true, false,
  if◌then◌else◌, codes, text_eq, trim_space, trim_prefix, contains, split_on, atoi,
}
use version_aware_code_mcp.Vacerr
use version_aware_code_mcp.Vacerr.{
  Details, Failure, invalid_argument, symbol_not_found, graph_provider_unavailable,
}
use version_aware_code_mcp.Vacctx.{CodeContext}
use version_aware_code_mcp.Effect.{Result, ok, err, Effect, pure, fail, lift, continue, ◌>>=◌}
use version_aware_code_mcp.Deadline.{Cause}

-- A value of the parameters of a CBM tool.
pub data Param : Type 0 where
  string : Text → Param
  int : ℤ → Param
  flag : Bool → Param

abbrev pub Params : Type 0
Params = List (Text × Param)

-- `rows`, with each value as the JSON it was written in.
pub record Group : Type 0 where
  pub qn_prefix : Text
  pub file : Text
  pub rows : List (List Text)

pub record Rows : Type 0 where
  pub cols : List Text
  pub groups : List Group

-- The body that `trace` decodes.
pub record Traced : Type 0 where
  pub status : Text
  pub message : Text
  pub callees : Rows
  pub callers : Rows

-- `json.Unmarshal` into each of the types that the adapter reads; `texts` is what it leaves in a
-- slice of strings, whether it fails or not.
pub record Json : Type 0 where
  pub rows : Text → Option Rows
  pub traced : Text → Option Traced
  pub text : Text → Option Text
  pub number : Text → Option ℤ
  pub texts : Text → List Text

-- How a call of a tool ends: with what it wrote, with a failure that CBM names the reason of
-- (`reported`), or with any other.
pub data Reply : Type 0 where
  wrote : Text → Reply
  reported : Text → Reply
  failed : Text → Reply

pub record Backend (W : Type 0) : Type 0 where
  pub json : Json
  pub call : Text → Params → W → Reply × W
  pub quote_meta : Text → Text
  pub cause : W → Option Cause

-- `node`
pub record Node : Type 0 where
  pub name : Text
  pub qualified_name : Text
  pub label : Text
  pub path : Text
  pub line : ℤ
  pub connected : List Text

abbrev pub text_entry : Text → Text → Text × Vacerr.Detail
text_entry key value = (key, Vacerr.text value)

abbrev pub unavailable : CodeContext → Text → Failure
unavailable c tool = Vacerr.new graph_provider_unavailable (
    text_entry (codes "context") c.id
    ∷ text_entry (codes "graph_ref") c.graph_ref
    ∷ text_entry (codes "tool") tool
    ∷ [])

abbrev pub invalid : Details → Failure
invalid details = Vacerr.new invalid_argument details

-- `column`
unfoldable pub column : List Text → List Text → Text → Option Text
unfolding text_eq
column [] row name = none
column (c ∷ cols) [] name = none
column (c ∷ cols) (x ∷ row) name =
    let rest = column cols row name in if text_eq c name then some x else rest

abbrev pub unless_empty : Option Text → Option Text
unless_empty none = none
unless_empty (some []) = none
unless_empty (some (c ∷ s)) = some (c ∷ s)

abbrev pub read {ℓ} : {A : Type ℓ} → (Text → Option A) → Option Text → Option A
read decode none = none
read decode (some raw) = decode raw

abbrev pub or_default {ℓ} : {A : Type ℓ} → A → Option A → A
or_default d none = d
or_default d (some a) = a

abbrev pub first_part : List Text → Text
first_part [] = []
first_part (p ∷ ps) = p

module _ (json : Json) where
  -- `text` and `number`
  unfoldable pub text : List Text → List Text → Text → Option Text
  unfolding column
  text cols row name = unless_empty (read json.text (column cols row name))

  unfoldable pub number : List Text → List Text → Text → Option ℤ
  unfolding column
  number cols row name = read json.number (column cols row name)

  -- `lineRange`
  unfoldable pub line_range : List Text → List Text → Option ℤ
  unfolding text split_on trim_space atoi
  line_range cols row =
      read (λ value. atoi (trim_space (first_part (split_on 45 value))))
        (text cols row (codes "lines"))

  abbrev pub connected_of : Option Text → List Text
  connected_of none = []
  connected_of (some raw) = json.texts raw

  abbrev pub node_of : List Text → Group → List Text → Text → Node
  node_of cols group row name = record {
    name = name;
    qualified_name = trim_prefix (group.qn_prefix ++ (codes "." ++ name)) (codes ".");
    label = or_default [] (text cols row (codes "label"));
    path = group.file;
    line = or_default (pos 0) (line_range cols row);
    connected = connected_of (column cols row (codes "connected"));
  }

  abbrev pub node_if_named : List Text → Group → List Text → Option Text → List Node
  node_if_named cols group row none = []
  node_if_named cols group row (some name) = node_of cols group row name ∷ []

  -- The loops of `search`: a row without a name is passed over.
  unfoldable pub nodes_of_rows : List Text → Group → List (List Text) → List Node
  unfolding text
  nodes_of_rows cols group [] = []
  nodes_of_rows cols group (row ∷ rest) =
      node_if_named cols group row (text cols row (codes "name")) ++ nodes_of_rows cols group rest

  unfoldable pub nodes_of_groups : List Text → List Group → List Node
  unfolding nodes_of_rows
  nodes_of_groups cols [] = []
  nodes_of_groups cols (group ∷ rest) =
      nodes_of_rows cols group group.rows ++ nodes_of_groups cols rest

-- `decode`
abbrev pub decode : {A : Type 0} → CodeContext → Text → Option A → Result A
decode c tool none = err (unavailable c tool)
decode c tool (some a) = ok a

-- What CBM's own reason is taken for.
unfoldable pub reported_failure : CodeContext → Text → Text → Failure
unfolding contains
reported_failure c tool reason =
    if contains (codes "function not found") reason
    then Vacerr.new symbol_not_found
        (text_entry (codes "context") c.id ∷ text_entry (codes "graph_ref") c.graph_ref ∷ [])
    else unavailable c tool

abbrev pub answered : CodeContext → Text → Reply → Result Text
answered c tool (wrote out) = ok out
answered c tool (reported reason) = err (reported_failure c tool reason)
answered c tool (failed reason) = err (unavailable c tool)

abbrev pub in_project : CodeContext → Params → Params
in_project c params =
    params ++ ((codes "project", string c.graph_ref) ∷ (codes "format", string (codes "json")) ∷ [])

abbrev pub max_nodes : ℤ
max_nodes = pos 1000

abbrev pub search_params : Text → Bool → Params
search_params pattern connected =
    (codes "name_pattern", string pattern)
    ∷ (codes "limit", int max_nodes)
    ∷ (if connected then (codes "include_connected", flag true) ∷ [] else [])

module _ {W : Type 0} (b : Backend W) where
  -- `run`: the project of every query is the context's graph.
  unfoldable pub run : CodeContext → Text → Params → Effect W Text
  unfolding reported_failure
  run c tool params w =
      let reply = b.call tool (in_project c params) w in (answered c tool reply.0, reply.1)

  -- `search`
  unfoldable pub search : CodeContext → Text → Bool → Effect W (List Node)
  unfolding run nodes_of_groups
  search c pattern connected =
      run c (codes "search_graph") (search_params pattern connected) >>= λ out.
      lift (decode c (codes "search_graph") (b.json.rows out)) >>= λ body.
      pure (nodes_of_groups b.json body.cols body.groups)
