-- ===== src/Managed/Repositories.antt =====
-- managed/repository.go: adding, listing, inspecting and removing the repositories of a data directory.
pub mod Dependents
use version_aware_code_mcp.Prelude.{
  ℕ, ◌+◌, Text, List, [], ◌∷◌, ◌++◌, map, Option, none, some, Bool, true, false, ◌&&◌, ◌||◌,
  if◌then◌else◌, ◌==◌, leb, any, codes, text_eq, contains, cut,
}
use version_aware_code_mcp.Vacerr
use version_aware_code_mcp.Vacerr.{Failure}
use version_aware_code_mcp.Effect.{Result, ok, err, Effect, pure, fail, lift, continue, ◌>>=◌, ◌>>◌}
use version_aware_code_mcp.Resolver.{handle}
use version_aware_code_mcp.Store.{Context, ContextMember, Disk}
use version_aware_code_mcp.Store.Repositories.{
  Repository, put_repository, delete_repository, repository, repository_dir, contexts,
}
use version_aware_code_mcp.Managed.Locks.{holding, with_repository_lock}
use version_aware_code_mcp.Managed.Plane.{State, Plane, invalid, on_world, on_repositories, asking}

abbrev pub repository_ready : Text
repository_ready = codes "READY"

abbrev pub repository_failed : Text
repository_failed = codes "FAILED"

-- What stands in front of the last "@", as `strings.LastIndex` finds it.
abbrev pub or_here : Bool → ℕ → Option Text → Option Text
or_here at c (some before) = some (c ∷ before)
or_here true c none = some []
or_here false c none = none

unfoldable pub before_last_at : Text → Option Text
before_last_at [] = none
before_last_at (c ∷ s) = or_here (c == 64) c (before_last_at s)

abbrev pub scheme_of : Text → Option (Text × Text) → Option Text × Text
scheme_of remote none = (none, remote)
scheme_of remote (some (scheme, rest)) = (some scheme, rest)

abbrev pub up_to : Text → Option (Text × Text) → Text
up_to s none = s
up_to s (some (before, after)) = before

-- The letters that `strings.EqualFold` takes for one of ASCII.
abbrev pub fold_letter : ℕ → ℕ
fold_letter c =
    if leb 65 c && leb c 90
    then c + 32
    else if c == 0x17f
    then 115
    else if c == 0x212a
    then 107
    else c

abbrev pub is_scheme : Text → Option Text → Bool
is_scheme name none = false
is_scheme name (some scheme) = text_eq (map fold_letter scheme) name

abbrev pub is_secret : Option Text → Option Text → Bool
is_secret scheme none = false
is_secret scheme (some user) =
    contains (codes ":") user || is_scheme (codes "http") scheme || is_scheme (codes "https") scheme

-- `embedsCredential`
unfoldable pub embeds_credential : Text → Bool
unfolding before_last_at cut contains text_eq
embeds_credential remote =
    let split = scheme_of remote (cut (codes "://") remote) in
    is_secret split.0 (before_last_at (up_to split.1 (cut (codes "/") split.1)))

abbrev pub is_member : Text → Context → Bool
is_member name c = any (λ m. text_eq m.repository name) c.members

unfoldable pub dependents : Text → List Context → List Text
unfolding text_eq
dependents name [] = []
dependents name (c ∷ rest) =
    let more = dependents name rest in if is_member name c then c.id ∷ more else more

abbrev pub ids_of : Text → Result (List Context) → Result (List Text)
ids_of name (err f) = err f
ids_of name (ok cs) = ok (dependents name cs)

-- `contextsOf`
unfoldable pub contexts_of : Text → Disk → Result (List Text)
unfolding contexts dependents
contexts_of name disk = ids_of name (contexts disk)

-- `RepositoryStatus`; its first four fields are managed.go's `Repository`.
pub record RepositoryStatus : Type 0 where
  pub name : Text
  pub url : Text
  pub state : Text
  pub last_sync_at : ℕ
  pub path : Text
  pub contexts : List Text

-- `repositoryOf`, with what a status adds
abbrev pub status_of : Repository → Text → List Text → RepositoryStatus
status_of r path ids = record {
  name = r.name;
  url = r.url;
  state = r.state;
  last_sync_at = r.last_sync_at;
  path = path;
  contexts = ids;
}

abbrev pub about : Text → Failure
about name = invalid ((codes "repository", Vacerr.text name) ∷ [])

module _ {W : Type 0} (p : Plane W) (now : ℕ) where
  abbrev pub added : Text → Text → Text → Repository
  added name url state = record {
    name = name;
    url = url;
    state = state;
    last_sync_at = 0;
    updated_at = 0;
  }

  abbrev pub clone_args : Text → Text → List Text
  clone_args url path =
      codes "clone"
      ∷ codes "--no-checkout"
      ∷ codes "--quiet"
      ∷ codes "--end-of-options"
      ∷ url
      ∷ path
      ∷ []

  -- The clone, and the record that says how it went.
  unfoldable pub clone_and_record : Text → Text → Text → Effect (State W) Repository
  unfolding put_repository
  clone_and_record name url path s =
      handle (on_world (p.run_git (clone_args url path)) s)
        (λ _. on_repositories (put_repository now (added name url repository_ready)) >>= λ _.
          pure (added name url repository_ready))
        (λ f. on_repositories (put_repository now (added name url repository_failed)) >>= λ _.
          fail (Vacerr.wrapped f))

  abbrev pub unless_added : Text → Text → Text → Result Repository → Effect (State W) Repository
  unless_added name url path (ok r) = fail (about name)
  unless_added name url path (err f) = clone_and_record name url path

  -- `RepositoryManager.Add`
  unfoldable pub add : Text → Text → Effect (State W) RepositoryStatus
  unfolding embeds_credential repository_dir repository clone_and_record with_repository_lock
  add name url =
      if embeds_credential url
      then fail (about name)
      else (lift (repository_dir p.root name) >>= λ path.
          with_repository_lock p.locks name
            (λ s. unless_added name url path (repository name s.repositories) s)
          >>= λ r. pure (status_of r path []))

  -- `RepositoryManager.Status`
  unfoldable pub status : Text → Effect (State W) RepositoryStatus
  unfolding repository repository_dir contexts_of
  status name = asking (λ s. repository name s.repositories) >>= λ r.
      lift (repository_dir p.root name) >>= λ path.
      asking (λ s. contexts_of name s.contexts) >>= λ ids. pure (status_of r path ids)

  abbrev pub still_used : Text → List Text → Failure
  still_used name ids =
      invalid ((codes "repository", Vacerr.text name) ∷ (codes "contexts", Vacerr.texts ids) ∷ [])

  abbrev pub delete_clone : Text → Text → List Text → Effect (State W) (Unit {0})
  delete_clone name path [] =
      on_world (p.remove_all path) >>= λ _. on_repositories (delete_repository name)
  delete_clone name path (id ∷ rest) = fail (still_used name (id ∷ rest))

  unfoldable pub remove_locked : Text → Text → Effect (State W) (Unit {0})
  unfolding repository contexts_of delete_repository
  remove_locked name path = asking (λ s. repository name s.repositories) >>= λ _.
      asking (λ s. contexts_of name s.contexts) >>= λ ids. delete_clone name path ids

  -- `RepositoryManager.Remove`
  unfoldable pub remove : Text → Effect (State W) (Unit {0})
  unfolding repository_dir remove_locked with_repository_lock
  remove name = lift (repository_dir p.root name) >>= λ path.
      holding (p.locks.hold_management (codes "repo remove")) p.locks.release_management
        (with_repository_lock p.locks name (remove_locked name path))
