-- ===== src/Managed/Locks.antt =====
-- managed/lock.go: the locks of the repositories an operation works on, and the data directory's own.
-- Taking a lock may change everything, since others work on until it is given; the files and the
-- calls of the operating system are parameters.
pub mod Order
use version_aware_code_mcp.Prelude.{
  Text, List, [], ◌∷◌, ◌++◌, Bool, true, false, if◌then◌else◌, codes, text_eq, text_leb, sort_by,
}
use version_aware_code_mcp.Effect.{Result, ok, err, Effect, pure, fail, lift, continue, ◌>>=◌}
use version_aware_code_mcp.Store.{validate_name, and_then}

-- What an operation works on: a state, and the locks over it.
pub record Locks (S : Type 0) : Type 0 where
  pub take_lock : Text → Effect S (Unit {0})
  pub drop_lock : Text → S → S
  pub hold_management : Text → Effect S (Unit {0})
  pub release_management : S → S

-- A deferred release runs whatever the body's result is.
abbrev pub released : {S A : Type 0} → (S → S) → Result A × S → Result A × S
released release (r, s) = (r, release s)

abbrev pub holding : {S A : Type 0} → Effect S (Unit {0}) → (S → S) → Effect S A → Effect S A
holding acquire release body = acquire >>= λ _ s. released release (body s)

-- `slices.Compact`
unfoldable pub compact : List Text → List Text
unfolding text_eq
compact [] = []
compact (a ∷ []) = a ∷ []
compact (a ∷ b ∷ rest) = let more = compact (b ∷ rest) in if text_eq a b then more else a ∷ more

unfoldable pub lock_names : List Text → List Text
unfolding compact sort_by text_leb
lock_names repositories = compact (sort_by text_leb repositories)

module _ {S : Type 0} (l : Locks S) {A : Type 0} where
  -- `withRepositoryLock`
  unfoldable pub with_repository_lock : Text → Effect S A → Effect S A
  unfolding validate_name
  with_repository_lock repository body =
      lift (validate_name (codes "repository") repository) >>= λ _.
      holding (l.take_lock repository) (l.drop_lock repository) body

  -- The closure `take` of `withRepositoryLocks`.
  unfoldable pub take_each : List Text → Effect S A → Effect S A
  unfolding with_repository_lock
  take_each [] body = body
  take_each (name ∷ rest) body = with_repository_lock name (take_each rest body)

  -- `withRepositoryLocks`
  unfoldable pub with_repository_locks : List Text → Effect S A → Effect S A
  unfolding take_each lock_names
  with_repository_locks repositories body = take_each (lock_names repositories) body
