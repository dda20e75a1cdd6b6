-- ===== src/Managed/Graphs.antt =====
-- verifyGraph of managed/source.go: whether CBM holds a member's graph, asked page by page. The reply
-- to one page is a parameter; the loop runs on fuel, and Paging shows how much is enough.
pub mod Paging
use version_aware_code_mcp.Prelude.{
  ℕ, zero, suc, ◌+◌, Text, ℤ, pos, negsuc, List, [], ◌∷◌, Option, none, some, Bool, true, false,
  not, any, length, if◌then◌else◌, codes, text_eq, ltb_ℤ,
}
use version_aware_code_mcp.Vacerr
use version_aware_code_mcp.Vacerr.{Failure, graph_provider_unavailable}
use version_aware_code_mcp.Effect.{Result, ok, err}
use version_aware_code_mcp.Store.{ContextMember}

-- The body that a page decodes to.
pub record Page : Type 0 where
  pub projects : List Text
  pub has_more : Bool
  pub next_offset : Option ℤ

-- How one `list_projects` ends; `unusable` is any failure but the caller's own cancellation, and an
-- answer that is not JSON.
pub data Listing : Type 0 where
  page : Page → Listing
  cancelled : Failure → Listing
  unusable : Listing

-- `graphUnavailable`
abbrev pub graph_unavailable : Text → ContextMember → Failure
graph_unavailable id m =
    Vacerr.new graph_provider_unavailable
      ((codes "context", Vacerr.text id) ∷ (codes "repository", Vacerr.text m.repository) ∷ [])

-- `offset + len(body.Projects)`
abbrev pub add_length : ℤ → ℕ → ℤ
add_length (pos n) k = pos (n + k)
add_length (negsuc n) zero = negsuc n
add_length (negsuc zero) (suc k) = pos k
add_length (negsuc (suc n)) (suc k) = add_length (negsuc n) k

-- What one page settles.
pub data Verdict : Type 0 where
  done : Result (Unit {0}) → Verdict
  again : ℤ → Verdict

abbrev pub next_page : Failure → ℤ → Page → Option ℤ → Verdict
next_page f offset p none = again (add_length offset (length p.projects))
next_page f offset p (some next) = if ltb_ℤ offset next then again next else done (err f)

abbrev pub is_nil : List Text → Bool
is_nil [] = true
is_nil (x ∷ xs) = false

unfoldable pub read_page : Text → ContextMember → ℤ → Listing → Verdict
unfolding text_eq
read_page id m offset unusable = done (err (graph_unavailable id m))
read_page id m offset (cancelled f) = done (err f)
read_page id m offset (page p) =
    if any (text_eq m.graph_ref) p.projects
    then done (ok tt)
    else if not p.has_more
    then done (err (graph_unavailable id m))
    else if is_nil p.projects
    then done (err (graph_unavailable id m))
    else next_page (graph_unavailable id m) offset p p.next_offset

module _ {W : Type 0} (list_projects : ℤ → W → Listing × W) where
  -- The loop; `none` is a run that needs more fuel.
  unfoldable pub verify_graph_from :
      ℕ → Text → ContextMember → ℤ → W → Option (Result (Unit {0}) × W)
  unfolding read_page
  verify_graph_from zero id m offset w = none
  verify_graph_from (suc fuel) id m offset w =
      elim (read_page id m offset (list_projects offset w).0) [
        | done r ↦ some (r, (list_projects offset w).1)
        | again next ↦ verify_graph_from fuel id m next (list_projects offset w).1
      ]

  -- `verifyGraph`
  unfoldable pub verify_graph : ℕ → Text → ContextMember → W → Option (Result (Unit {0}) × W)
  unfolding verify_graph_from
  verify_graph fuel id m w = verify_graph_from fuel id m (pos 0) w
