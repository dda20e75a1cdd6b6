-- ===== src/Store/Repositories.antt =====
-- store/store.go: the directories of a data directory, the records of its repositories, and the
-- listings. A repository's record always decodes here.
use version_aware_code_mcp.Prelude.{
  ℕ, Text, List, [], ◌∷◌, ◌++◌, Option, none, some, Bool, if◌then◌else◌, codes, text_eq, text_leb,
  sort_by,
}
use version_aware_code_mcp.Vacerr
use version_aware_code_mcp.Vacerr.{Failure, repository_not_found}
use version_aware_code_mcp.Effect.{Result, ok, err}
use version_aware_code_mcp.Config.{lookup}
use version_aware_code_mcp.Store.{
  Context, Disk, validate_name, and_then, unmarshal, as_valid_record,
}

-- `RepositoryDir` and `WorktreeDir`, under the absolute path `root`
unfoldable pub repository_dir : Text → Text → Result Text
unfolding validate_name
repository_dir root name =
    and_then (validate_name (codes "repository") name) (ok (root ++ (codes "/repos/" ++ name)))

unfoldable pub worktree_dir : Text → Text → Text → Result Text
unfolding validate_name
worktree_dir root repository id = and_then (validate_name (codes "repository") repository) (
    and_then (validate_name (codes "context") id)
      (ok (root ++ (codes "/worktrees/" ++ (repository ++ (codes "/" ++ id))))))

pub record Repository : Type 0 where
  pub name : Text
  pub url : Text
  pub state : Text
  pub last_sync_at : ℕ
  pub updated_at : ℕ

abbrev pub Repositories : Type 0
Repositories = List (Text × Repository)

unfoldable pub remove_entry : Text → Repositories → Repositories
unfolding text_eq
remove_entry name [] = []
remove_entry name ((k, r) ∷ rest) =
    let kept = remove_entry name rest in if text_eq k name then kept else (k, r) ∷ kept

abbrev pub filed :
    Result (Unit {0}) → Text → Repository → Repositories → Result (Unit {0}) × Repositories
filed (err f) name r disk = (err f, disk)
filed (ok _) name r disk = (ok tt, (name, r) ∷ remove_entry name disk)

-- `PutRepository`, at the time `now`
unfoldable pub put_repository : ℕ → Repository → Repositories → Result (Unit {0}) × Repositories
unfolding remove_entry validate_name
put_repository now r disk =
    filed (validate_name (codes "repository") r.name) r.name (record r { updated_at = now }) disk

abbrev pub unknown_repository : Text → Failure
unknown_repository name =
    Vacerr.new repository_not_found ((codes "repository", Vacerr.text name) ∷ [])

abbrev pub known : Text → Option Repository → Result Repository
known name none = err (unknown_repository name)
known name (some r) = ok r

-- `Store.Repository`
unfoldable pub repository : Text → Repositories → Result Repository
unfolding validate_name lookup
repository name disk =
    and_then (validate_name (codes "repository") name) (known name (lookup name disk))

abbrev pub forgotten :
    Result (Unit {0}) → Text → Option Repository → Repositories → Result (Unit {0}) × Repositories
forgotten (err f) name o disk = (err f, disk)
forgotten (ok _) name none disk = (err (unknown_repository name), disk)
forgotten (ok _) name (some r) disk = (ok tt, remove_entry name disk)

-- `DeleteRepository`
unfoldable pub delete_repository : Text → Repositories → Result (Unit {0}) × Repositories
unfolding remove_entry validate_name lookup
delete_repository name disk =
    forgotten (validate_name (codes "repository") name) name (lookup name disk) disk

-- The file that a record is in; `os.ReadDir` orders by it.
abbrev pub file_name : Text → Text
file_name name = name ++ codes ".json"

abbrev pub in_file_order {ℓ} : {V : Type ℓ} → Text × V → Text × V → Bool
in_file_order a b = text_leb (file_name a.0) (file_name b.0)

abbrev pub one_more : Result Context → Result (List Context) → Result (List Context)
one_more (err f) rest = err f
one_more (ok c) (err f) = err f
one_more (ok c) (ok cs) = ok (c ∷ cs)

unfoldable pub decode_all : Disk → Result (List Context)
unfolding unmarshal
decode_all [] = ok []
decode_all ((id, r) ∷ rest) = one_more (as_valid_record (unmarshal r)) (decode_all rest)

-- `Contexts` and `Repositories`
unfoldable pub contexts : Disk → Result (List Context)
unfolding decode_all sort_by text_leb
contexts disk = decode_all (sort_by in_file_order disk)

abbrev pub records_of : Repositories → List Repository
records_of [] = []
records_of ((name, r) ∷ rest) = r ∷ records_of rest

unfoldable pub repositories : Repositories → List Repository
unfolding sort_by text_leb
repositories disk = records_of (sort_by in_file_order disk)
