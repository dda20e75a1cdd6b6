-- ===== src/Zoekt.antt =====
-- adapters/zoekt/zoekt.go: a query is scoped to the repository and the branch of its context, and
-- what comes back is filtered by both again. The HTTP exchange, `regexp.QuoteMeta` and the clock
-- are parameters. Parentheses and backslashes are ASCII, so reading characters in place of Go's
-- bytes reads the same ones.
pub mod Group
pub mod Isolation
use version_aware_code_mcp.Prelude.{
  ℕ, zero, suc, Text, ℤ, pos, List, [], ◌∷◌, ◌++◌, map, Option, none, some, Bool, true, false, ◌&&◌,
  ◌||◌, if◌then◌else◌, ◌==◌, codes, any, text_eq, trim_space, trim_right,
}
use version_aware_code_mcp.Vacerr
use version_aware_code_mcp.Vacerr.{Failure, invalid_argument, search_provider_unavailable}
use version_aware_code_mcp.Vacctx.{CodeContext}
use version_aware_code_mcp.Effect.{Result, ok, err, Effect, pure, fail, lift, continue, ◌>>=◌}
use version_aware_code_mcp.Provider.{SearchResult, SearchProvider}
use version_aware_code_mcp.Deadline.{Cause, ended}

abbrev pub open_paren : ℕ
open_paren = 40

abbrev pub close_paren : ℕ
close_paren = 41

abbrev pub backslash : ℕ
backslash = 92

-- The cases of the loop's `switch`.
pub data Kind : Type 0 where
  escape opens closes plain : Kind

unfoldable pub kind : ℕ → Kind
kind c =
    if c == backslash
    then escape
    else if c == open_paren
    then opens
    else if c == close_paren
    then closes
    else plain

-- `depth--`, and the refusal where that is below zero.
abbrev pub closed : ℕ → (ℕ → Bool) → Bool
closed zero k = false
closed (suc depth) k = k depth

-- The loop of `balanced`. The flag is the `i++` of a backslash, which skips what follows it.
unfoldable pub balanced_from : Bool → ℕ → Text → Bool
unfolding kind
balanced_from skip depth [] = depth == 0
balanced_from true depth (c ∷ rest) = balanced_from false depth rest
balanced_from false depth (c ∷ rest) = elim (kind c) [
  | escape ↦ balanced_from true depth rest
  | opens ↦ balanced_from false (suc depth) rest
  | closes ↦ closed depth (λ d. balanced_from false d rest)
  | plain ↦ balanced_from false depth rest
]

unfoldable pub balanced : Text → Bool
unfolding balanced_from
balanced query = balanced_from false 0 query

abbrev pub invalid : CodeContext → Failure
invalid c = Vacerr.new invalid_argument ((codes "context", Vacerr.text c.id) ∷ [])

abbrev pub invalid_query : CodeContext → Text → Failure
invalid_query c query =
    Vacerr.new invalid_argument
      ((codes "context", Vacerr.text c.id) ∷ (codes "query", Vacerr.text query) ∷ [])

abbrev pub wrap : (Text → Text) → CodeContext → Text → Text
wrap quote_meta c query =
    codes "repo:^"
    ++ quote_meta c.repository
    ++ codes "$ branch:"
    ++ c.branch
    ++ codes " ( "
    ++ query
    ++ codes " )"

abbrev pub scoped_trimmed : (Text → Text) → CodeContext → Text → Result Text
scoped_trimmed quote_meta c [] = err (invalid c)
scoped_trimmed quote_meta c (a ∷ q) =
    if balanced (a ∷ q) then ok (wrap quote_meta c (a ∷ q)) else err (invalid_query c (a ∷ q))

-- `scopedQuery`
unfoldable pub scoped_query : (Text → Text) → CodeContext → Text → Result Text
unfolding balanced trim_space
scoped_query quote_meta c query = scoped_trimmed quote_meta c (trim_space query)

pub record LineMatch : Type 0 where
  pub line : Text
  pub line_number : ℤ
  pub file_name : Bool

pub record FileMatch : Type 0 where
  pub file_name : Text
  pub repository : Text
  pub branches : List Text
  pub line_matches : List LineMatch

-- How one HTTP exchange with the server comes out: no response at all, a response with a status
-- other than 200, one that does not decode, or the files.
pub data Reply : Type 0 where
  unreachable : Reply
  refused : ℤ → Reply
  unreadable : Reply
  files : List FileMatch → Reply

pub record Server (W : Type 0) : Type 0 where
  pub url : Text
  pub quote_meta : Text → Text
  pub exchange : Text → W → Reply × W
  pub cause : W → Option Cause

abbrev pub unavailable : Text → CodeContext → Text → Failure
unavailable url c query = Vacerr.new search_provider_unavailable (
    (codes "context", Vacerr.text c.id)
    ∷ (codes "url", Vacerr.text url)
    ∷ (codes "query", Vacerr.text query)
    ∷ [])

abbrev is_bad_request : ℤ → Bool
is_bad_request (pos n) = n == 400
is_bad_request _ = false

-- `bytes` that end a line, `"\r\n"`
abbrev pub ends_line : ℕ → Bool
ends_line c = c == 13 || c == 10

abbrev pub result_of : FileMatch → LineMatch → SearchResult
result_of f l = record {
  path = f.file_name;
  line = l.line_number;
  snippet = trim_right ends_line l.line;
}

-- `file.Repository != codeCtx.Repository || !slices.Contains(...)`, the other way round.
unfoldable pub is_in_scope : CodeContext → FileMatch → Bool
is_in_scope c f = text_eq f.repository c.repository && any (λ b. text_eq b c.branch) f.branches

-- The inner loop, which passes over a match on the file's name.
unfoldable pub line_results : FileMatch → List LineMatch → List SearchResult
unfolding trim_right
line_results f [] = []
line_results f (l ∷ rest) =
    let results = line_results f rest in if l.file_name then results else result_of f l ∷ results

unfoldable pub file_results : CodeContext → List FileMatch → List SearchResult
unfolding is_in_scope line_results
file_results c [] = []
file_results c (f ∷ rest) =
    let results = file_results c rest in
    if is_in_scope c f then line_results f f.line_matches ++ results else results

module _ {W : Type 0} (s : Server W) where
  abbrev late_or : Option Failure → Failure → Failure
  late_or none f = f
  late_or (some late) f = late

  -- What the code makes of a reply.
  unfoldable pub read_reply : CodeContext → Text → Reply × W → Result (List FileMatch) × W
  read_reply c query (unreachable, w) =
      fail (late_or (ended (s.cause w)) (unavailable s.url c query)) w
  read_reply c query (refused status, w) =
      fail (if is_bad_request status then invalid_query c query else unavailable s.url c query) w
  read_reply c query (unreadable, w) = fail (unavailable s.url c query) w
  read_reply c query (files fs, w) = pure fs w

  unfoldable pub post : CodeContext → Text → Effect W (List FileMatch)
  unfolding read_reply
  post c query w = read_reply c query (s.exchange query w)

  -- `Search`
  unfoldable pub search : CodeContext → Text → Effect W (List SearchResult)
  unfolding scoped_query post file_results
  search c query = lift (scoped_query s.quote_meta c query) >>= λ scoped.
      post c scoped >>= λ fs. pure (file_results c fs)

  unfoldable pub search_provider : SearchProvider W
  search_provider = record { search = search; closer = none }
