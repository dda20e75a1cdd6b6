-- ===== src/Managed.antt =====
-- managed/context.go: the lifecycle of a managed context, whose state is written down before the
-- stage that it names runs, and what of it may be served. The stages themselves, which drive git
-- and the indexers, are parameters; the time that a record is stamped with is one, too.
pub mod Building
pub mod Serving
pub mod Graphs
pub mod Naming
pub mod Locks
pub mod Plane
pub mod Creating
pub mod Removing
pub mod Repositories
pub mod Shards
pub mod Verifying
pub mod Reporting
use version_aware_code_mcp.Prelude.{
  ℕ, Text, List, [], ◌∷◌, Option, none, some, Bool, true, false, ◌||◌, if◌then◌else◌, codes,
  text_eq,
}
use version_aware_code_mcp.Vacerr.{Failure}
use version_aware_code_mcp.Vacerr
use version_aware_code_mcp.Effect.{Result, ok, err, Effect}
use version_aware_code_mcp.Store
use version_aware_code_mcp.Files.{working}
use version_aware_code_mcp.Store.{Context, Disk, put_context, unknown_context}

abbrev pub context_resolving : Text
context_resolving = codes "RESOLVING"

abbrev pub context_preparing_source : Text
context_preparing_source = codes "PREPARING_SOURCE"

abbrev pub context_indexing_search : Text
context_indexing_search = codes "INDEXING_SEARCH"

abbrev pub context_indexing_graph : Text
context_indexing_graph = codes "INDEXING_GRAPH"

abbrev pub context_verifying : Text
context_verifying = codes "VERIFYING"

abbrev pub context_ready : Text
context_ready = codes "READY"

abbrev pub context_failed : Text
context_failed = codes "FAILED"

abbrev pub context_removing : Text
context_removing = codes "REMOVING"

abbrev pub context_lifecycle : List Text
context_lifecycle =
    codes "CREATING"
    ∷ context_resolving
    ∷ context_preparing_source
    ∷ context_indexing_search
    ∷ context_indexing_graph
    ∷ context_verifying
    ∷ context_ready
    ∷ []

-- `slices.Index(contextLifecycle, from)`, as what stands behind that place; `none` is -1.
unfoldable pub behind : Text → List Text → Option (List Text)
behind from [] = none
behind from (s ∷ rest) = if text_eq s from then some rest else behind from rest

abbrev is_first : Text → List Text → Bool
is_first to [] = false
is_first to (s ∷ _) = text_eq to s

abbrev moves_on : Text → Option (List Text) → Bool
moves_on to none = false
moves_on to (some rest) = text_eq to context_failed || is_first to rest

unfoldable pub advances : Text → Text → Bool
unfolding behind
advances from to =
    if text_eq to context_removing
    then true
    else if text_eq from context_ready
    then false
    else moves_on to (behind from context_lifecycle)

abbrev pub cannot_move : Failure
cannot_move = Vacerr.plain (codes "cannot move")

abbrev pub in_state : Text → Context → Context
in_state s c = record c { state = s }

-- What a call leaves behind that is given the context by pointer.
abbrev pub Kept : Type 0
Kept = Context × Disk

abbrev put_in_state : ℕ → Context → Disk → Result (Unit {0}) × Kept
put_in_state now c disk = let (r, after) = put_context working now c disk in (r, (c, after))

unfoldable pub advance : ℕ → Text → Context → Disk → Result (Unit {0}) × Kept
unfolding advances
advance now next c disk =
    if advances c.state next
    then put_in_state now (in_state next c) disk
    else (err cannot_move, (c, disk))

-- How a build ends: the errors that are joined into the one returned, none on success, and what
-- the context, the records and the world are then.
pub record Built (W : Type 0) : Type 0 where
  pub errors : List Failure
  pub context : Context
  pub disk : Disk
  pub world : W

abbrev pub errors_of : Result (Unit {0}) → List Failure
errors_of (ok _) = []
errors_of (err f) = f ∷ []

module _ {W : Type 0} where
  abbrev pub ending : List Failure → Kept → W → Built W
  ending errors kept w = record { errors = errors; context = kept.0; disk = kept.1; world = w }

  -- `fail`
  unfoldable pub fail_with : ℕ → Failure → Context → Disk → W → Built W
  unfolding advance
  fail_with now cause c disk w =
      let (r, kept) = advance now context_failed c disk in ending (cause ∷ errors_of r) kept w

-- A stage: the state it is in, and its run.
abbrev pub Stage : Type 0 → Type 0
Stage W = Text × (Context → Disk → Effect W (Unit {0}))

-- What the stages do outside of the records.
pub record Stages (W : Type 0) : Type 0 where
  pub prepare_source : Context → Disk → Effect W (Unit {0})
  pub index_search : Context → Disk → Effect W (Unit {0})
  pub index_graph : Context → Disk → Effect W (Unit {0})
  pub verify : Context → Disk → Effect W (Unit {0})

abbrev pub stages_of : {W : Type 0} → Stages W → List (Stage W)
stages_of s =
    (context_preparing_source, s.prepare_source)
    ∷ (context_indexing_search, s.index_search)
    ∷ (context_indexing_graph, s.index_graph)
    ∷ (context_verifying, s.verify)
    ∷ []

module _ {W : Type 0} (now : ℕ) where
  abbrev after_run : Result (Unit {0}) × W → Context → Disk → (W → Built W) → Built W
  after_run (ok _, v) c disk k = k v
  after_run (err f, v) c disk k = fail_with now f c disk v

  abbrev after_advance : Result (Unit {0}) × Kept → W → (Context → Disk → Built W) → Built W
  after_advance (ok _, kept) w k = k kept.0 kept.1
  after_advance (err f, kept) w k = ending (f ∷ []) kept w

  -- The loop over the stages, and the last move.
  unfoldable pub run_stages : List (Stage W) → Context → Disk → W → Built W
  unfolding fail_with
  run_stages [] c disk w =
      let (r, kept) = advance now context_ready c disk in ending (errors_of r) kept w
  run_stages ((state, run) ∷ rest) c disk w =
      after_advance (advance now state c disk) w
        λ c' disk'. after_run (run c' disk' w) c' disk' (λ v. run_stages rest c' disk' v)

  -- `buildContext`
  unfoldable pub build_context : Stages W → Context → Disk → W → Built W
  unfolding run_stages
  build_context s c disk w = run_stages (stages_of s) c disk w

abbrev only_ready : Text → Result Context → Result Context
only_ready id (err f) = err f
only_ready id (ok c) = if text_eq c.state context_ready then ok c else err (unknown_context id)

-- `readyContext`
unfoldable pub ready_context : Text → Disk → Result Context
ready_context id disk = only_ready id (Store.context id disk)
