-- ===== src/Managed/Naming.antt =====
-- managed/context.go: the revision that a ref is pinned to, the names that a member's artifacts are
-- given, and the check of a record against them. A revision is what git prints, one byte to a
-- character.
pub mod Identity
use version_aware_code_mcp.Prelude.{
  ℕ, Text, List, [], ◌∷◌, ◌++◌, Option, none, some, Bool, true, false, not, if◌then◌else◌, ◌==◌,
  codes, text_eq, length, ltb, take,
}
use version_aware_code_mcp.Vacerr
use version_aware_code_mcp.Vacerr.{Failure, revision_not_found, source_mismatch}
use version_aware_code_mcp.Effect.{Result, ok, err, Effect, pure, fail}
use version_aware_code_mcp.Resolver.{handle}
use version_aware_code_mcp.Store.{ContextMember, Context}

abbrev pub full_sha : ℕ
full_sha = 40

abbrev pub short_sha : ℕ
short_sha = 12

abbrev pub is_several : List ContextMember → Bool
is_several ms = ltb 1 (length ms)

abbrev pub dashed : Text → Text → Text
dashed a b = a ++ (codes "-" ++ b)

-- `searchRef`; `several` is whether the context has more than one member.
unfoldable pub search_ref : Bool → Text → ContextMember → Text
search_ref several id m =
    if several
    then codes "vacmcp/" ++ dashed m.repository (dashed id (take short_sha m.revision))
    else codes "vacmcp/" ++ dashed id (take short_sha m.revision)

-- `graphRef`
unfoldable pub graph_ref : Text → ContextMember → Text
graph_ref id m = codes "vacmcp-" ++ dashed m.repository (dashed id (take short_sha m.revision))

abbrev pub mismatch : Text → ContextMember → Vacerr.Details → Failure
mismatch id m details = Vacerr.new source_mismatch (
    (codes "context", Vacerr.text id)
    ∷ (codes "repository", Vacerr.text m.repository)
    ∷ (codes "declared_revision", Vacerr.text m.revision)
    ∷ details)

unfoldable pub check_identities : Bool → Text → List ContextMember → Result (Unit {0})
unfolding search_ref graph_ref text_eq
check_identities several id [] = ok tt
check_identities several id (m ∷ rest) =
    let later = check_identities several id rest in
    if not (length m.revision == full_sha)
    then err (mismatch id m [])
    else if not (text_eq m.branch (search_ref several id m))
    then err (mismatch id m ((codes "branch", Vacerr.text m.branch) ∷ []))
    else if not (text_eq m.graph_ref (graph_ref id m))
    then err (mismatch id m ((codes "graph_ref", Vacerr.text m.graph_ref) ∷ []))
    else later

-- `verifyIdentity`
unfoldable pub verify_identity : Context → Result (Unit {0})
unfolding check_identities
verify_identity c = check_identities (is_several c.members) c.id c.members

abbrev pub unresolved : Text → Text → Failure
unresolved repository ref =
    Vacerr.new revision_not_found
      ((codes "repository", Vacerr.text repository) ∷ (codes "ref", Vacerr.text ref) ∷ [])

abbrev pub not_full : Failure
not_full = Vacerr.plain (codes "context create: not a full commit SHA")

module _ {W : Type 0} (git : List Text → Effect W Text) where
  abbrev pub rev_parse : Text → Text → Effect W Text
  rev_parse dir candidate = git (
      codes "-C"
      ∷ dir
      ∷ codes "rev-parse"
      ∷ codes "--verify"
      ∷ codes "--end-of-options"
      ∷ (candidate ++ codes "^{commit}")
      ∷ [])

  abbrev pub full_or_fail : Text → Effect W Text
  full_or_fail revision = if length revision == full_sha then pure revision else fail not_full

  -- `resolveRevision`: the ref as given, and then the remote's branch of that name.
  unfoldable pub resolve_revision : Text → Text → Text → Effect W Text
  resolve_revision dir repository ref w = handle (rev_parse dir ref w) full_or_fail (λ _ v.
      handle (rev_parse dir (codes "origin/" ++ ref) v) full_or_fail
        (λ _. fail (unresolved repository ref)))
