-- ===== src/Managed/Plane.antt =====
-- What the operations of managed/context.go and managed/repository.go work on: the records of a data
-- directory and the world outside of them. git, the indexers and the files are parameters.
use version_aware_code_mcp.Prelude.{ℕ, Text, List, map}
use version_aware_code_mcp.Vacerr
use version_aware_code_mcp.Vacerr.{Failure, invalid_argument}
use version_aware_code_mcp.Effect.{Result, Effect}
use version_aware_code_mcp.Store.{Context, ContextMember, Disk}
use version_aware_code_mcp.Store.Repositories.{Repositories}
use version_aware_code_mcp.Managed.{Stages}
use version_aware_code_mcp.Managed.Locks.{Locks}

pub record State (W : Type 0) : Type 0 where
  pub repositories : Repositories
  pub contexts : Disk
  pub world : W

-- A data directory at `root`: its locks, and what the operations run. `git` gives a command's output,
-- trimmed; `run_git` only whether it succeeded.
pub record Plane (W : Type 0) : Type 0 where
  pub root : Text
  pub locks : Locks (State W)
  pub git : List Text → Effect W Text
  pub run_git : List Text → Effect W (Unit {0})
  pub stages : Stages W
  pub discard_source : Text → Text → Text → ContextMember → Effect W (Unit {0})
  pub drop_search_ref : Text → ContextMember → Effect W (Unit {0})
  pub index_repository : Text → Disk → Effect W (Unit {0})
  pub remove_all : Text → Effect W (Unit {0})

abbrev pub invalid : Vacerr.Details → Failure
invalid details = Vacerr.new invalid_argument details

module _ {W : Type 0} where
  abbrev pub on_world : {A : Type 0} → Effect W A → Effect (State W) A
  on_world m s = let (r, v) = m s.world in (r, record s { world = v })

  abbrev pub on_contexts : {A : Type 0} → (Disk → Result A × Disk) → Effect (State W) A
  on_contexts f s = let (r, d) = f s.contexts in (r, record s { contexts = d })

  abbrev pub on_repositories :
      {A : Type 0} → (Repositories → Result A × Repositories) → Effect (State W) A
  on_repositories f s = let (r, d) = f s.repositories in (r, record s { repositories = d })

  abbrev pub asking : {A : Type 0} → (State W → Result A) → Effect (State W) A
  asking f s = (f s, s)

-- `repositoriesOf`
abbrev pub repositories_of : List ContextMember → List Text
repositories_of ms = map (λ m. m.repository) ms

-- managed.go's `Context`, as it is reported
pub record Member : Type 0 where
  pub repository : Text
  pub revision : Text

pub record ManagedContext : Type 0 where
  pub id : Text
  pub members : List Member
  pub state : Text
  pub updated_at : ℕ

abbrev pub member_of : ContextMember → Member
member_of m = record { repository = m.repository; revision = m.revision }

-- `contextOf`
abbrev pub context_of : Context → ManagedContext
context_of c = record {
  id = c.id;
  members = map member_of c.members;
  state = c.state;
  updated_at = c.updated_at;
}
