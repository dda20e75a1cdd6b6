-- ===== src/GitSource/History.antt =====
-- adapters/git/history.go: the commits that a context's revision reaches, reported once for each
-- path they changed. `strings.ToLower` and the conversion of a date to UTC (`time.Parse` and
-- `Format`) are parameters.
pub mod Matching
pub mod Walking
use version_aware_code_mcp.Prelude.{
  ℕ, zero, suc, Text, ℤ, pos, negsuc, pos_part, List, [], ◌∷◌, ◌++◌, Option, none, some, Bool, true,
  false, ◌&&◌, ◌||◌, not, leb, if◌then◌else◌, ◌==◌, codes, length, text_eq, trim_space, trim_right,
  is_blank, contains, cut, split_on,
}
use version_aware_code_mcp.Vacerr
use version_aware_code_mcp.Vacerr.{Failure, repository_not_found}
use version_aware_code_mcp.Vacctx.{CodeContext}
use version_aware_code_mcp.Effect.{Result, ok, err, Effect, pure, fail, lift, continue, ◌>>=◌}
use version_aware_code_mcp.Provider.{HistoryQuery, HistoryEntry}
use version_aware_code_mcp.Deadline.{ended}
use version_aware_code_mcp.Config.{Repository, lookup}
use version_aware_code_mcp.Resolver.{Git, handle}
use version_aware_code_mcp.GitSource.{invalid, text_entry, resolve}
use version_aware_code_mcp.GitSource.Paths.{validate_path}
use version_aware_code_mcp.GitSource.Reading.{not_configured}

-- What the walk takes from the standard library.
pub record Locale : Type 0 where
  pub lower : Text → Text
  pub utc : Text → Option Text

abbrev pub default_history_limit : ℤ
default_history_limit = pos 100

-- `historyLimit`
unfoldable pub history_limit : ℤ → Result ℤ
history_limit (pos zero) = ok default_history_limit
history_limit (pos (suc n)) = ok (pos (suc n))
history_limit (negsuc n) = err (invalid ((codes "limit", Vacerr.number (negsuc n)) ∷ []))

-- `historyRecordSeparator` and `historyFieldSeparator`
abbrev pub record_separator : ℕ
record_separator = 0x1e

abbrev pub field_separator : Text
field_separator = 0x1f ∷ []

-- `strings.SplitN`
abbrev pub split_rest : Text → Option (Text × Text) → (Text → List Text) → List Text
split_rest s none k = s ∷ []
split_rest s (some (before, after)) k = before ∷ k after

unfoldable pub split_at_most : Text → ℕ → Text → List Text
unfolding cut
split_at_most sep zero s = []
split_at_most sep (suc zero) s = s ∷ []
split_at_most sep (suc (suc n)) s = split_rest s (cut sep s) (split_at_most sep (suc n))

-- The fields of a record of the walk.
pub record Commit : Type 0 where
  pub hash : Text
  pub author : Text
  pub timestamp : Text
  pub message : Text
  pub paths : List Text

module _ (locale : Locale) where
  abbrev pub or_raw : Text → Option Text → Text
  or_raw raw none = raw
  or_raw raw (some t) = t

  -- `normalizeTimestamp`
  unfoldable pub normalize_timestamp : Text → Text
  unfolding trim_space
  normalize_timestamp raw = or_raw (trim_space raw) (locale.utc (trim_space raw))

  unfoldable pub commit_of_fields : List Text → Option Commit
  unfolding normalize_timestamp trim_right trim_space split_on
  commit_of_fields (hash ∷ author ∷ timestamp ∷ message ∷ paths ∷ rest) = some (record {
    hash = trim_space hash;
    author = trim_space author;
    timestamp = normalize_timestamp timestamp;
    message = trim_right (λ c. c == 10) message;
    paths = split_on 10 paths;
  })
  commit_of_fields _ = none

  -- A record of the walk, unless it is blank or has too few fields.
  unfoldable pub parse_record : Text → Option Commit
  unfolding commit_of_fields split_at_most is_blank
  parse_record text =
      if is_blank text then none else commit_of_fields (split_at_most field_separator 5 text)

  abbrev pub needle_of : Text → Text
  needle_of query = locale.lower (trim_space query)

  -- Whether the message filter lets a commit pass.
  unfoldable pub is_wanted : Text → Commit → Bool
  unfolding text_eq contains
  is_wanted needle c = text_eq needle [] || contains needle (locale.lower c.message)

-- Whether a line below the record is a path that is reported.
unfoldable pub is_reported : Text → Text → Bool
unfolding text_eq
is_reported filter path = not (text_eq path []) && (text_eq filter [] || text_eq path filter)

abbrev pub entry_of : Commit → Text → HistoryEntry
entry_of c path = record {
  commit = c.hash;
  path = path;
  author = c.author;
  timestamp = c.timestamp;
  message = c.message;
}

-- What the loops have so far: they go on, or the function has returned.
pub data Walk : Type 0 where
  going returned : List HistoryEntry → Walk

abbrev pub walk_on : Walk → (List HistoryEntry → Walk) → Walk
walk_on (going entries) k = k entries
walk_on (returned entries) k = returned entries

-- The loop over a commit's paths.
unfoldable pub walk_paths : ℕ → Text → Commit → List HistoryEntry → List Text → Walk
unfolding is_reported trim_space
walk_paths limit filter c entries [] = going entries
walk_paths limit filter c entries (line ∷ rest) =
    let path = trim_space line in
    elim (is_reported filter path) [
      | false ↦ walk_paths limit filter c entries rest
      | true ↦ elim (leb limit (length entries)) [
        | true ↦ returned entries
        | false ↦ walk_paths limit filter c (entries ++ entry_of c path ∷ []) rest
      ]
    ]

module _ (locale : Locale) where
  unfoldable pub walk_record : ℕ → Text → Text → List HistoryEntry → Option Commit → Walk
  unfolding walk_paths is_wanted
  walk_record limit filter needle entries none = going entries
  walk_record limit filter needle entries (some c) =
      if is_wanted locale needle c then walk_paths limit filter c entries c.paths else going entries

  -- The loop over the records.
  unfoldable pub walk_records : ℕ → Text → Text → List HistoryEntry → List Text → Walk
  unfolding walk_record parse_record
  walk_records limit filter needle entries [] = going entries
  walk_records limit filter needle entries (text ∷ rest) =
      walk_on (walk_record limit filter needle entries (parse_record locale text))
        (λ more. walk_records limit filter needle more rest)

  abbrev pub walked : Walk → List HistoryEntry
  walked (going entries) = entries
  walked (returned entries) = entries

  -- `parseHistory`
  unfoldable pub parse_history : Text → Text → Text → ℤ → List HistoryEntry
  unfolding walk_records split_on trim_space
  parse_history out query filter limit = walked (
      walk_records (pos_part limit) filter (needle_of locale query) []
        (split_on record_separator out))

-- The walk's format: the fields of a record between its separators.
abbrev pub history_format : Text
history_format =
    codes "--format="
    ++ (record_separator
        ∷ (codes "%H"
            ++ (field_separator
                ++ (codes "%an <%ae>"
                    ++ (field_separator
                        ++ (codes "%aI"
                            ++ (field_separator ++ (codes "%B" ++ field_separator))))))))

abbrev pub symbol_args : Text → List Text
symbol_args [] = []
symbol_args (c ∷ s) = (codes "-S" ++ (c ∷ s)) ∷ []

abbrev pub path_args : Text → List Text
path_args [] = []
path_args (c ∷ s) = (c ∷ s) ∷ []

abbrev pub history_args : Text → Text → Text → List Text
history_args symbol revision filter =
    codes "log"
    ∷ codes "--name-only"
    ∷ codes "--no-merges"
    ∷ history_format
    ∷ (symbol_args symbol ++ (codes "--end-of-options" ∷ revision ∷ codes "--" ∷ path_args filter))

abbrev pub no_history : CodeContext → Text → Failure
no_history c revision = Vacerr.new repository_not_found (
    text_entry (codes "context") c.id
    ∷ text_entry (codes "repository") c.repository
    ∷ text_entry (codes "revision") revision
    ∷ [])

-- A path that is not given filters nothing. `validateHistoryPath` is validatePath with another
-- message.
unfoldable pub path_filter : Text → Result Text
unfolding is_blank validate_path
path_filter path = if is_blank path then ok [] else validate_path path

module _ {W : Type 0} (g : Git W) (locale : Locale) where
  abbrev pub history_failed : CodeContext → Text → Option Failure → Effect W (List HistoryEntry)
  history_failed c revision none = fail (no_history c revision)
  history_failed c revision (some late) = fail late

  unfoldable pub history_at :
      CodeContext → Text → HistoryQuery → Text → ℤ → Text → Effect W (List HistoryEntry)
  unfolding parse_history
  history_at c path q filter limit revision w =
      handle (g.run path (history_args q.symbol revision filter) w)
        (λ out. pure (parse_history locale out q.query filter limit))
        (λ _ v. history_failed c revision (ended (g.cause v)) v)

  unfoldable pub history_in :
      CodeContext → Option Repository → HistoryQuery → Text → ℤ → Effect W (List HistoryEntry)
  unfolding history_at resolve
  history_in c none q filter limit = fail (not_configured c)
  history_in c (some repo) q filter limit =
      resolve g c repo.path >>= λ revision. history_at c repo.path q filter limit revision

  -- `Provider.SearchHistory`
  unfoldable pub search_history :
      List (Text × Repository) → CodeContext → HistoryQuery → Effect W (List HistoryEntry)
  unfolding history_in history_limit path_filter
  search_history repositories c q = lift (history_limit q.limit) >>= λ limit.
      lift (path_filter q.path) >>= λ filter.
      history_in c (lookup c.repository repositories) q filter limit
