-- ===== src/Engine.antt =====
-- engine/engine.go: the engine over its four dependencies, and what every query begins with, the
-- resolution of a context id into complete members and the choice of the members to answer in.
-- The queries are in the modules below.
pub mod Search
pub mod Trace
pub mod Source
pub mod Compare
pub mod Asked
pub mod Calls
pub mod Scope
pub mod Listing
use version_aware_code_mcp.Prelude.{
  ℕ, suc, Text, ℤ, List, [], ◌∷◌, ◌++◌, map, Option, none, some, Bool, true, false, ◌&&◌, ◌||◌,
  if◌then◌else◌, codes, is_blank, text_eq, text_leb, length, pos, ltb_ℤ,
}
use version_aware_code_mcp.Vacerr
use version_aware_code_mcp.Vacerr.{Details, Failure, invalid_argument}
use version_aware_code_mcp.Vacctx.{CodeContext, Workspace}
use version_aware_code_mcp.Effect.{Result, ok, err, Effect, pure, fail, lift, continue, ◌>>=◌, ◌>>◌}
use version_aware_code_mcp.Provider.{
  Closer, SearchProvider, GraphProvider, SourceProvider, ContextSource,
}
use version_aware_code_mcp.Evidence.{Evidence}

-- A provider that the server was built without is `none`.
pub record Engine (W : Type 0) : Type 0 where
  pub contexts : ContextSource W
  pub search : Option (SearchProvider W)
  pub graph : Option (GraphProvider W)
  pub source : Option (SourceProvider W)

abbrev pub min_depth : ℤ
min_depth = pos 1

abbrev pub max_depth : ℤ
max_depth = pos 5

-- `req.Depth < minDepth || req.Depth > maxDepth`
unfoldable pub depth_out_of_range : ℤ → Bool
depth_out_of_range d = ltb_ℤ d min_depth || ltb_ℤ max_depth d

unfoldable pub require : Text → Text → Text → Result (Unit {0})
require id name value =
    if is_blank value
    then err (
        Vacerr.new invalid_argument
          ((codes "context", Vacerr.text id) ∷ (codes "field", Vacerr.text name) ∷ []))
    else ok tt

abbrev pub and_then : Result (Unit {0}) → Result (Unit {0}) → Result (Unit {0})
and_then (ok _) r = r
and_then (err e) r = err e

-- The loop over the fields, in the order that the code lists them.
unfoldable pub check_member : Text → CodeContext → Result (Unit {0})
unfolding require
check_member id m = and_then (require id (codes "id") m.id) (
    and_then (require id (codes "repository") m.repository)
      (and_then (require id (codes "branch") m.branch) (require id (codes "revision") m.revision)))

unfoldable pub check_members : Text → List CodeContext → Result (Unit {0})
unfolding check_member
check_members id [] = ok tt
check_members id (m ∷ rest) = and_then (check_member id m) (check_members id rest)

module _ {W : Type 0} where
  unfoldable pub resolve : Engine W → Text → Effect W Workspace
  unfolding check_members
  resolve e id = e.contexts.resolve id >>= λ workspace.
      lift (check_members id workspace.members) >> pure workspace

unfoldable pub repository_names : List CodeContext → List Text
repository_names [] = []
repository_names (m ∷ rest) = m.repository ∷ repository_names rest

abbrev pub no_repository : Text → Failure
no_repository id = Vacerr.new invalid_argument ((codes "context", Vacerr.text id) ∷ [])

-- The caller's details come first, so that the two added here win.
unfoldable pub repository_required : Text → List CodeContext → Details → Failure
unfolding repository_names
repository_required id members details = Vacerr.new invalid_argument (
    details
    ++ (codes "context", Vacerr.text id)
      ∷ (codes "repositories", Vacerr.texts (repository_names members))
      ∷ [])

-- The first member that names the repository.
unfoldable pub find_member : Text → List CodeContext → Option CodeContext
find_member repository [] = none
find_member repository (m ∷ rest) =
    if text_eq m.repository repository then some m else find_member repository rest

abbrev pub select_named :
    Text → Text → List CodeContext → Option CodeContext → Result (List CodeContext)
select_named id repository members (some m) = ok (m ∷ [])
select_named id repository members none = err (
    Vacerr.new invalid_argument (
      (codes "context", Vacerr.text id)
      ∷ (codes "repository", Vacerr.text repository)
      ∷ (codes "repositories", Vacerr.texts (repository_names members))
      ∷ []))

unfoldable pub select_from : Text → Text → List CodeContext → Result (List CodeContext)
unfolding find_member repository_names
select_from id repository [] = err (no_repository id)
select_from id repository (m ∷ rest) =
    if is_blank repository
    then ok (m ∷ rest)
    else select_named id repository (m ∷ rest) (find_member repository (m ∷ rest))

abbrev pub select_members : Text → Text → Workspace → Result (List CodeContext)
select_members id repository workspace = select_from id repository workspace.members

-- `len(members) != 1`, with the one member where the test fails.
unfoldable pub single : List CodeContext → Option CodeContext
single [] = none
single (m ∷ []) = some m
single (m ∷ n ∷ rest) = none

-- The only member of a list, or the refusal that a repository is required.
abbrev pub only_member : Failure → Option CodeContext → Result CodeContext
only_member refusal (some m) = ok m
only_member refusal none = err refusal

pub record Answer : Type 0 where
  pub workspace : Workspace
  pub cited : List (List Evidence)

abbrev pub in_one_member : CodeContext → List Evidence → Answer
in_one_member c citations = record {
  workspace = record { id = c.id; members = c ∷ [] };
  cited = citations ∷ [];
}

-- The zero value that an absent side of a comparison is.
abbrev pub no_answer : Answer
no_answer = record { workspace = record { id = []; members = [] }; cited = [] }

-- `slices.SortFunc` by id. Go leaves the order of equal ids open; here they keep theirs.
unfoldable pub insert_workspace : Workspace → List Workspace → List Workspace
insert_workspace a [] = a ∷ []
insert_workspace a (b ∷ rest) =
    if text_leb a.id b.id then a ∷ b ∷ rest else b ∷ insert_workspace a rest

unfoldable pub sort_workspaces : List Workspace → List Workspace
unfolding insert_workspace
sort_workspaces [] = []
sort_workspaces (a ∷ rest) = insert_workspace a (sort_workspaces rest)

abbrev add_error : Result (Unit {0}) → List Failure → List Failure
add_error (ok _) errs = errs
add_error (err f) errs = f ∷ errs

module _ {W : Type 0} where
  unfoldable pub list_contexts : Engine W → Effect W (List Workspace)
  unfolding sort_workspaces
  list_contexts e = e.contexts.contexts >>= λ listed. pure (sort_workspaces listed)

  abbrev search_closer : Option (SearchProvider W) → Closer W
  search_closer none = none
  search_closer (some p) = p.closer

  abbrev graph_closer : Option (GraphProvider W) → Closer W
  graph_closer none = none
  graph_closer (some p) = p.closer

  abbrev source_closer : Option (SourceProvider W) → Closer W
  source_closer none = none
  source_closer (some p) = p.closer

  -- The dependencies in the order that `Close` visits them.
  abbrev pub closers : Engine W → List (Closer W)
  closers e =
      e.contexts.closer
      ∷ search_closer e.search
      ∷ graph_closer e.graph
      ∷ source_closer e.source
      ∷ []

  -- The loop of `Close`: the failures that `errors.Join` joins, and the world afterwards.
  unfoldable pub close_all : List (Closer W) → W → List Failure × W
  close_all [] w = ([], w)
  close_all (none ∷ rest) w = close_all rest w
  close_all (some c ∷ rest) w =
      let (errs, w') = close_all rest (c w).1 in (add_error (c w).0 errs, w')

  unfoldable pub close : Engine W → W → List Failure × W
  unfolding close_all
  close e w = close_all (closers e) w
