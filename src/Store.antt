-- ===== src/Store.antt =====
-- store/store.go: the names that may become path elements, the two spellings in which a context is
-- written down, and the records of the contexts. The disk is the map from a record's name to the
-- decoded JSON of its file; reading and writing JSON text is left out. A write of a context may fail
-- at each of its steps (Files); failing to read or to delete is left out.
pub mod Names
pub mod Spelling
pub mod Records
pub mod Repositories
use version_aware_code_mcp.Prelude.{
  ℕ, Text, List, [], ◌∷◌, ◌++◌, Option, none, some, Bool, true, false, ◌&&◌, ◌||◌, not,
  if◌then◌else◌, ◌==◌, leb, ltb, codes, text_eq, length,
}
use version_aware_code_mcp.Vacerr
use version_aware_code_mcp.Vacerr.{Failure, invalid_argument, context_not_found}
use version_aware_code_mcp.Files.{Answers, atomic_write}
use version_aware_code_mcp.Effect.{Result, ok, err}
use version_aware_code_mcp.Config.{lookup}

pub record ContextMember : Type 0 where
  pub repository : Text
  pub branch : Text
  pub revision : Text
  pub graph_ref : Text

pub record Context : Type 0 where
  pub id : Text
  pub members : List ContextMember
  pub state : Text
  pub updated_at : ℕ

-- A `json.RawMessage` as the code tells its types apart: no such key, `null`, a string, an array
-- of strings, or anything else.
pub data Raw : Type 0 where
  absent null other : Raw
  string : Text → Raw
  strings : List Text → Raw

pub record ContextRecord : Type 0 where
  pub id : Text
  pub repository : Raw
  pub branch : Text
  pub revision : Text
  pub graph_ref : Text
  pub members : List ContextMember
  pub state : Text
  pub updated_at : ℕ

abbrev pub no_repository : Raw
no_repository = strings []

abbrev pub several : Context → ContextRecord
several c = record {
  id = c.id;
  repository = no_repository;
  branch = [];
  revision = [];
  graph_ref = [];
  members = c.members;
  state = c.state;
  updated_at = c.updated_at;
}

abbrev marshal_members : Context → List ContextMember → ContextRecord
marshal_members c (m ∷ []) = record {
  id = c.id;
  repository = string m.repository;
  branch = m.branch;
  revision = m.revision;
  graph_ref = m.graph_ref;
  members = [];
  state = c.state;
  updated_at = c.updated_at;
}
marshal_members c _ = several c

-- `Context.MarshalJSON`
unfoldable pub marshal : Context → ContextRecord
marshal c = marshal_members c c.members

abbrev pub malformed : Text → Failure
malformed id = Vacerr.plain (codes "store: context " ++ id)

-- `len(record.Repository) == 0`, or a value that decodes into an empty `[]string`.
abbrev pub names_none : Raw → Bool
names_none absent = true
names_none null = true
names_none (strings []) = true
names_none _ = false

-- Decoding into a `string`; `null` leaves it empty.
abbrev pub decode_string : Text → Raw → Result Text
decode_string id null = ok []
decode_string id (string s) = ok s
decode_string id _ = err (malformed id)

abbrev pub one_member : ContextRecord → Result Text → Result Context
one_member r (err f) = err f
one_member r (ok repository) = ok (record {
  id = r.id;
  members =
      record {
        repository = repository;
        branch = r.branch;
        revision = r.revision;
        graph_ref = r.graph_ref;
      }
      ∷ [];
  state = r.state;
  updated_at = r.updated_at;
})

abbrev pub is_one_spelling : ContextRecord → Bool
is_one_spelling r =
    names_none r.repository
    && text_eq r.branch []
    && text_eq r.revision []
    && text_eq r.graph_ref []

abbrev unmarshal_members : ContextRecord → List ContextMember → Result Context
unmarshal_members r [] = one_member r (decode_string r.id r.repository)
unmarshal_members r (m ∷ ms) =
    if is_one_spelling r
    then ok (record { id = r.id; members = m ∷ ms; state = r.state; updated_at = r.updated_at })
    else err (malformed r.id)

-- `Context.UnmarshalJSON`
unfoldable pub unmarshal : ContextRecord → Result Context
unmarshal r = unmarshal_members r r.members

unfoldable pub is_alphanumeric : ℕ → Bool
is_alphanumeric c = (leb 65 c && leb c 90) || (leb 97 c && leb c 122) || (leb 48 c && leb c 57)

-- `[A-Za-z0-9._-]`
unfoldable pub is_name_character : ℕ → Bool
unfolding is_alphanumeric
is_name_character c = is_alphanumeric c || c == 46 || c == 95 || c == 45

unfoldable pub all_name_characters : Text → Bool
unfolding is_name_character
all_name_characters [] = true
all_name_characters (c ∷ s) = is_name_character c && all_name_characters s

-- `namePattern.MatchString(name)`
unfoldable pub matches_pattern : Text → Bool
unfolding all_name_characters
matches_pattern [] = false
matches_pattern (c ∷ s) = is_alphanumeric c && all_name_characters s

abbrev pub max_name_length : ℕ
max_name_length = 100

unfoldable pub validate_name : Text → Text → Result (Unit {0})
unfolding matches_pattern
validate_name kind name =
    if ltb max_name_length (length name) || not (matches_pattern name)
    then err (Vacerr.new invalid_argument ((kind, Vacerr.text name) ∷ []))
    else ok tt

abbrev pub Disk : Type 0
Disk = List (Text × ContextRecord)

unfoldable pub remove_record : Text → Disk → Disk
remove_record name [] = []
remove_record name ((k, r) ∷ rest) =
    let kept = remove_record name rest in if text_eq k name then kept else (k, r) ∷ kept

abbrev pub and_then : {A : Type 0} → Result (Unit {0}) → Result A → Result A
and_then (ok _) r = r
and_then (err f) r = err f

unfoldable pub check_names : List ContextMember → Result (Unit {0})
unfolding validate_name
check_names [] = ok tt
check_names (m ∷ rest) =
    and_then (validate_name (codes "repository") m.repository) (check_names rest)

-- A context without members names no scope.
unfoldable pub check_members : Text → List ContextMember → Result (Unit {0})
unfolding check_names
check_members id [] = err (Vacerr.new invalid_argument ((codes "context", Vacerr.text id) ∷ []))
check_members id (m ∷ rest) = check_names (m ∷ rest)

abbrev pub written :
    Answers → Result (Unit {0}) → Text → ContextRecord → Disk → Result (Unit {0}) × Disk
written os (err f) name r disk = (err f, disk)
written os (ok _) name r disk = atomic_write os (λ d. (name, r) ∷ remove_record name d) disk

-- What `PutContext` refuses.
abbrev pub checked : Context → Result (Unit {0})
checked c = and_then (validate_name (codes "context") c.id) (check_members c.id c.members)

-- `PutContext`, at the time `now`, on a disk that answers the write with `os`
unfoldable pub put_context : Answers → ℕ → Context → Disk → Result (Unit {0}) × Disk
unfolding check_members marshal remove_record atomic_write
put_context os now c disk =
    written os (checked c) c.id (marshal (record c { updated_at = now })) disk

abbrev pub unknown_context : Text → Failure
unknown_context id = Vacerr.new context_not_found ((codes "context", Vacerr.text id) ∷ [])

-- What `readRecord` makes of a record that does not decode.
abbrev pub as_valid_record : Result Context → Result Context
as_valid_record (ok c) = ok c
as_valid_record (err f) = err (Vacerr.wrapped f)

abbrev pub decoded : Text → Option ContextRecord → Result Context
decoded id none = err (unknown_context id)
decoded id (some r) = as_valid_record (unmarshal r)

-- `Store.Context`
unfoldable pub context : Text → Disk → Result Context
unfolding unmarshal
context id disk = and_then (validate_name (codes "context") id) (decoded id (lookup id disk))

abbrev removed : Text → Option ContextRecord → Disk → Result (Unit {0}) × Disk
removed id none disk = (err (unknown_context id), disk)
removed id (some _) disk = (ok tt, remove_record id disk)

abbrev when_named : Result (Unit {0}) → Result (Unit {0}) × Disk → Disk → Result (Unit {0}) × Disk
when_named (ok _) out disk = out
when_named (err f) out disk = (err f, disk)

-- `DeleteContext`
unfoldable pub delete_context : Text → Disk → Result (Unit {0}) × Disk
unfolding validate_name
delete_context id disk =
    when_named (validate_name (codes "context") id) (removed id (lookup id disk) disk) disk
