-- ===== src/Config.antt =====
-- config/config.go: the configuration as it is used, how a file's two spellings of a context fold
-- into one workspace and back, and the validation. A Go map is an association list whose keys are
-- distinct; where the code ranges over sorted keys, the entries are sorted by key. The server and
-- provider settings, which nothing here reads, and the YAML syntax are left out.
pub mod Agreement
pub mod Checks
pub mod Graphs
pub mod Validity
pub mod Spelling
use version_aware_code_mcp.Prelude.{
  ℕ, Text, List, [], ◌∷◌, ◌++◌, map, Option, none, some, Bool, true, false, ◌&&◌, ◌||◌, not,
  if◌then◌else◌, codes, is_blank, text_eq, text_leb, any,
}
use version_aware_code_mcp.Vacerr
use version_aware_code_mcp.Vacerr.{Failure, invalid_argument, repository_not_found}
use version_aware_code_mcp.Vacctx.{CodeContext, Workspace}
use version_aware_code_mcp.Effect.{Result, ok, err}

pub record Repository : Type 0 where
  pub path : Text

pub record Config : Type 0 where
  pub repositories : List (Text × Repository)
  pub contexts : List (Text × Workspace)

-- `m[key]`
unfoldable pub lookup {ℓ} : {V : Type ℓ} → Text → List (Text × V) → Option V
lookup key [] = none
lookup key ((k, v) ∷ rest) = if text_eq k key then some v else lookup key rest

unfoldable pub insert_entry {ℓ} : {V : Type ℓ} → Text × V → List (Text × V) → List (Text × V)
insert_entry e [] = e ∷ []
insert_entry e (f ∷ rest) = if text_leb e.0 f.0 then e ∷ f ∷ rest else f ∷ insert_entry e rest

-- `slices.Sorted(maps.Keys(m))`, each key with its value.
unfoldable pub sorted {ℓ} : {V : Type ℓ} → List (Text × V) → List (Text × V)
unfolding insert_entry
sorted [] = []
sorted (e ∷ rest) = insert_entry e (sorted rest)

-- One entry of the contexts mapping as a file writes it. A list that is not written is `none`.
pub record DeclaredContext : Type 0 where
  pub inline : CodeContext
  pub members : Option (List CodeContext)

abbrev pub blank_context : CodeContext
blank_context = record { id = []; repository = []; branch = []; revision = []; graph_ref = [] }

-- `inline != vacctx.CodeContext{ID: id}`, where both have that id.
unfoldable pub declares_inline : CodeContext → Bool
declares_inline c = not (
    text_eq c.repository []
    && text_eq c.branch []
    && text_eq c.revision []
    && text_eq c.graph_ref [])

abbrev pub filed : Text → CodeContext → CodeContext
filed id m = record m { id = id }

unfoldable pub workspace_as :
    Text → Bool → CodeContext → Option (List CodeContext) → Result Workspace
workspace_as id true inline (some members) =
    err (Vacerr.new invalid_argument ((codes "context", Vacerr.text id) ∷ []))
workspace_as id true inline none = ok (record { id = id; members = filed id inline ∷ [] })
workspace_as id false inline (some members) =
    ok (record { id = id; members = map (filed id) members })
workspace_as id false inline none = ok (record { id = id; members = [] })

-- `declaredContext.workspace`
unfoldable pub workspace_of : Text → DeclaredContext → Result Workspace
unfolding workspace_as declares_inline
workspace_of id d = workspace_as id (declares_inline d.inline) d.inline d.members

-- What `Marshal` writes for a workspace. The id is no field of the file.
unfoldable pub declared_members : List CodeContext → DeclaredContext
declared_members (m ∷ []) = record { inline = filed [] m; members = none }
declared_members ms = record { inline = blank_context; members = some (map (filed []) ms) }

abbrev pub declared_of : Workspace → DeclaredContext
declared_of ws = declared_members ws.members

abbrev pub add_context :
    Text → Result Workspace → Result (List (Text × Workspace)) → Result (List (Text × Workspace))
add_context id (err f) rest = err f
add_context id (ok ws) (err f) = err f
add_context id (ok ws) (ok entries) = ok ((id, ws) ∷ entries)

-- The loop of `Load` over the file's contexts.
unfoldable pub load_contexts : List (Text × DeclaredContext) → Result (List (Text × Workspace))
unfolding workspace_of
load_contexts [] = ok []
load_contexts ((id, d) ∷ rest) = add_context id (workspace_of id d) (load_contexts rest)

abbrev pub and_then : {A : Type 0} → Result (Unit {0}) → Result A → Result A
and_then (ok _) r = r
and_then (err f) r = err f

abbrev pub refuse_if : Bool → Failure → Result (Unit {0})
refuse_if true f = err f
refuse_if false f = ok tt

abbrev pub invalid_field : Text → Text → Failure
invalid_field id field =
    Vacerr.new invalid_argument
      ((codes "context", Vacerr.text id) ∷ (codes "field", Vacerr.text field) ∷ [])

-- The loop over the four fields that a member needs.
unfoldable pub check_fields : Text → CodeContext → Result (Unit {0})
check_fields id m =
    and_then (refuse_if (is_blank m.repository) (invalid_field id (codes "repository"))) (
      and_then (refuse_if (is_blank m.branch) (invalid_field id (codes "branch"))) (
        and_then (refuse_if (is_blank m.revision) (invalid_field id (codes "revision")))
          (refuse_if (is_blank m.graph_ref) (invalid_field id (codes "graph_ref")))))

abbrev pub is_none : {A : Type 0} → Option A → Bool
is_none none = true
is_none (some _) = false

unfoldable pub check_declared :
    List (Text × Repository) → Text → List Text → CodeContext → Result (Unit {0})
unfolding lookup
check_declared repositories id declared m =
    and_then
      (refuse_if (is_none (lookup m.repository repositories)) (
        Vacerr.new repository_not_found (
          (codes "context", Vacerr.text id) ∷ (codes "repository", Vacerr.text m.repository) ∷ [])))
      (refuse_if (any (text_eq m.repository) declared) (
        Vacerr.new invalid_argument (
          (codes "context", Vacerr.text id) ∷ (codes "repository", Vacerr.text m.repository) ∷ [])))

-- `byGraphRef[ref]`, over the members seen so far, the latest first: a later one replaces an
-- earlier one of the same graph_ref.
unfoldable pub by_graph_ref : Text → List CodeContext → Option CodeContext
by_graph_ref ref [] = none
by_graph_ref ref (m ∷ rest) = if text_eq m.graph_ref ref then some m else by_graph_ref ref rest

abbrev pub same_version : CodeContext → CodeContext → Bool
same_version m n = text_eq m.repository n.repository && text_eq m.revision n.revision

abbrev pub conflict : Text → CodeContext → Option CodeContext → Result (Unit {0})
conflict id m none = ok tt
conflict id m (some other) = refuse_if (not (same_version other m)) (
    Vacerr.new invalid_argument (
      (codes "context", Vacerr.text id)
      ∷ (codes "conflicting_context", Vacerr.text other.id)
      ∷ (codes "graph_ref", Vacerr.text m.graph_ref)
      ∷ []))

unfoldable pub check_member :
    List (Text × Repository) → Text → List Text → List CodeContext → CodeContext → Result (Unit {0})
unfolding check_fields check_declared by_graph_ref
check_member repositories id declared seen m = and_then (check_fields id m) (
    and_then (check_declared repositories id declared m)
      (conflict id m (by_graph_ref m.graph_ref seen)))

-- The loop over a workspace's members, with `declared` and `byGraphRef` as they grow; what comes
-- back is `byGraphRef` after it.
unfoldable pub check_members :
    List (Text × Repository)
    → Text
    → List Text
    → List CodeContext
    → List CodeContext
    → Result (List CodeContext)
unfolding check_member
check_members repositories id declared seen [] = ok seen
check_members repositories id declared seen (m ∷ rest) =
    and_then (check_member repositories id declared seen m)
      (check_members repositories id (m.repository ∷ declared) (m ∷ seen) rest)

abbrev pub is_nil {ℓ} : {A : Type ℓ} → List A → Bool
is_nil [] = true
is_nil (_ ∷ _) = false

unfoldable pub check_context :
    List (Text × Repository) → Text → Workspace → List CodeContext → Result (List CodeContext)
unfolding check_members
check_context repositories id ws seen =
    and_then (refuse_if (is_blank id) (Vacerr.new invalid_argument [])) (
      and_then
        (refuse_if (is_nil ws.members)
          (Vacerr.new invalid_argument ((codes "context", Vacerr.text id) ∷ [])))
        (check_members repositories id [] seen ws.members))

abbrev pub bind_result : {A B : Type 0} → Result A → (A → Result B) → Result B
bind_result (ok a) f = f a
bind_result (err x) f = err x

unfoldable pub check_contexts :
    List (Text × Repository) → List CodeContext → List (Text × Workspace) → Result (Unit {0})
unfolding check_context
check_contexts repositories seen [] = ok tt
check_contexts repositories seen ((id, ws) ∷ rest) =
    bind_result (check_context repositories id ws seen)
      λ after. check_contexts repositories after rest

unfoldable pub check_repositories : List (Text × Repository) → Result (Unit {0})
check_repositories [] = ok tt
check_repositories ((name, repo) ∷ rest) =
    and_then (refuse_if (is_blank name) (Vacerr.new invalid_argument [])) (
      and_then
        (refuse_if (is_blank repo.path)
          (Vacerr.new invalid_argument ((codes "repository", Vacerr.text name) ∷ [])))
        (check_repositories rest))

-- `Config.validate`
unfoldable pub validate : Config → Result (Unit {0})
unfolding check_repositories check_contexts sorted
validate c = and_then (check_repositories (sorted c.repositories)) (
    and_then (refuse_if (is_nil c.contexts) (Vacerr.new invalid_argument []))
      (check_contexts c.repositories [] (sorted c.contexts)))

-- `Load`, from the parsed file on.
unfoldable pub load : List (Text × Repository) → List (Text × DeclaredContext) → Result Config
unfolding load_contexts validate
load repositories contexts = bind_result (load_contexts (sorted contexts)) λ entries.
    let cfg : Config = record { repositories = repositories; contexts = entries } in
    and_then (validate cfg) (ok cfg)
