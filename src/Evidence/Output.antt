-- ===== src/Evidence/Output.antt =====
-- evidence/evidence.go: the output that can only be built over a complete scope, and the context
-- block and the evidence list it writes. The payload, which `MarshalJSON` merges in, and the JSON
-- text are left out.
pub mod Attribution
pub mod Emitted
use version_aware_code_mcp.Prelude.{
  Text, List, [], ◌∷◌, ◌++◌, map, Bool, true, false, not, codes, is_blank, length, ◌==◌,
  if◌then◌else◌,
}
use version_aware_code_mcp.Vacerr
use version_aware_code_mcp.Vacerr.{Failure}
use version_aware_code_mcp.Vacctx.{CodeContext, Workspace}
use version_aware_code_mcp.Effect.{Result, ok, err}
use version_aware_code_mcp.Evidence.{Location, Evidence}

pub record Output : Type 0 where
  pub workspace : Workspace
  pub cited : List (List Evidence)

-- `ErrIncompleteContext` and `ErrUnattributedEvidence`, wrapped.
abbrev pub incomplete_context : Failure
incomplete_context = Vacerr.wrapped (Vacerr.plain (codes "evidence: incomplete context"))

abbrev pub unattributed_evidence : Failure
unattributed_evidence =
    Vacerr.wrapped
      (Vacerr.plain (codes "evidence: evidence is not attributed to the workspace's members"))

abbrev pub require_field : Text → Result (Unit {0}) → Result (Unit {0})
require_field value rest = if is_blank value then err incomplete_context else rest

unfoldable pub check_members : List CodeContext → Result (Unit {0}) → Result (Unit {0})
check_members [] rest = rest
check_members (m ∷ ms) rest =
    require_field m.repository
      (require_field m.branch (require_field m.revision (check_members ms rest)))

abbrev pub check_some_member : List CodeContext → Result (Unit {0}) → Result (Unit {0})
check_some_member [] rest = err incomplete_context
check_some_member (_ ∷ _) rest = rest

abbrev pub check_attribution : Output → Result (Unit {0})
check_attribution o =
    if length o.cited == length o.workspace.members then ok tt else err unattributed_evidence

unfoldable pub validate : Output → Result (Unit {0})
unfolding check_members
validate o = require_field o.workspace.id (
    check_some_member o.workspace.members (check_members o.workspace.members (check_attribution o)))

abbrev pub checked : Output → Result (Unit {0}) → Result Output
checked o (ok _) = ok o
checked o (err f) = err f

-- `NewWorkspace`
unfoldable pub new_workspace : Workspace → List (List Evidence) → Result Output
unfolding validate
new_workspace w cited =
    let o : Output = record { workspace = w; cited = cited } in checked o (validate o)

-- `New`
unfoldable pub new : CodeContext → List Evidence → Result Output
unfolding new_workspace
new c evs = new_workspace (record { id = c.id; members = c ∷ [] }) (evs ∷ [])

pub record WireMember : Type 0 where
  pub repository : Text
  pub branch : Text
  pub revision : Text

pub record WireEvidence : Type 0 where
  pub location : Location
  pub snippet : Text
  pub repository : Text
  pub revision : Text

-- The two shapes of an output: one member with plain citations, or a list of members with
-- citations that name theirs.
pub data Wire : Type 0 where
  one : Text → WireMember → List Evidence → Wire
  several : Text → List WireMember → List WireEvidence → Wire

abbrev pub wire_member : CodeContext → WireMember
wire_member m = record { repository = m.repository; branch = m.branch; revision = m.revision }

abbrev pub wire_evidence : CodeContext → Evidence → WireEvidence
wire_evidence m e = record {
  location = e.location;
  snippet = e.snippet;
  repository = m.repository;
  revision = m.revision;
}

-- The loop over the members and their citations. A list that is missing would be a panic; `wire`
-- runs on validated outputs, where there is none.
unfoldable pub wire_items : List CodeContext → List (List Evidence) → List WireEvidence
wire_items [] cited = []
wire_items (m ∷ ms) [] = []
wire_items (m ∷ ms) (evs ∷ cited) = map (wire_evidence m) evs ++ wire_items ms cited

abbrev first_list : List (List Evidence) → List Evidence
first_list [] = []
first_list (evs ∷ _) = evs

abbrev wire_as : Text → List CodeContext → List (List Evidence) → Wire
wire_as id (m ∷ []) cited = one id (wire_member m) (first_list cited)
wire_as id ms cited = several id (map wire_member ms) (wire_items ms cited)

unfoldable pub wire : Output → Wire
unfolding wire_items
wire o = wire_as o.workspace.id o.workspace.members o.cited

abbrev pub written : Output → Result (Unit {0}) → Result Wire
written o (ok _) = ok (wire o)
written o (err f) = err f

-- `MarshalJSON`, which validates again, so that the zero output cannot be written.
unfoldable pub marshal : Output → Result Wire
unfolding validate
marshal o = written o (validate o)
