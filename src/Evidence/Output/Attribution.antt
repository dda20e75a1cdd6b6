-- ===== src/Evidence/Output/Attribution.antt =====
-- What an output can be built over, and that the engine's own answers can be written.
use version_aware_code_mcp.Prelude.{
  Text, List, [], ◌∷◌, Bool, true, false, ◌≡◌, ◌≢◌, ◌↔◌, refl, arith, All, length, is_blank,
  if◌then◌else◌,
}
use version_aware_code_mcp.Vacctx.{CodeContext, Workspace}
use version_aware_code_mcp.Effect.{Result, ok, err}
use version_aware_code_mcp.Evidence.{Evidence}
use version_aware_code_mcp.Evidence.Output.{
  Output, incomplete_context, require_field, check_members, check_some_member, check_attribution,
  validate, checked, new_workspace,
}

-- Everything that reaches the wire is there.
pub record IsScoped (m : CodeContext) : Type 0 where
  pub repository : is_blank m.repository ≡ false
  pub branch : is_blank m.branch ≡ false
  pub revision : is_blank m.revision ≡ false

-- Scoped well enough to be a successful result.
pub record IsEmittable (w : Workspace) (cited : List (List Evidence)) : Type 0 where
  pub id : is_blank w.id ≡ false
  pub some_member : w.members ≢ []
  pub scoped : All IsScoped w.members
  pub attributed : length cited ≡ length w.members

require_field_iff :
    (value : Text) (rest : Result (Unit {0}))
    → (require_field value rest ≡ ok tt) ↔ ((is_blank value ≡ false) × (rest ≡ ok tt))
require_field_iff value rest = go (is_blank value)
  where
    go :
        (b : Bool)
        → ((if b then err incomplete_context else rest) ≡ ok tt) ↔ ((b ≡ false) × (rest ≡ ok tt))
    go true = (λ h. absurd (cc), λ h. absurd (cc (h.0)))
    go false = (λ h. (refl, h), λ h. h.1)

check_members_iff :
    (ms : List CodeContext) (rest : Result (Unit {0}))
    → (check_members ms rest ≡ ok tt) ↔ (All IsScoped ms × (rest ≡ ok tt))
unfolding check_members
check_members_iff [] rest = (λ h. (tt, h), λ h. h.1)
check_members_iff (m ∷ ms) rest = (
  λ h.
      let (a, h₁) = (require_field_iff m.repository _).0 h in
      let (b, h₂) = (require_field_iff m.branch _).0 h₁ in
      let (c, h₃) = (require_field_iff m.revision _).0 h₂ in
      let (all, r) = (check_members_iff ms rest).0 h₃ in
      ((record { repository = a; branch = b; revision = c }, all), r),
  λ h.
      rw (h.0.0.repository, h.0.0.branch, h.0.0.revision)
        ((check_members_iff ms rest).1 (h.0.1, h.1)),
)

check_some_member_iff :
    (ms : List CodeContext) (rest : Result (Unit {0}))
    → (check_some_member ms rest ≡ ok tt) ↔ ((ms ≢ []) × (rest ≡ ok tt))
check_some_member_iff [] rest = (λ h. absurd (cc), λ h. absurd (h.0 refl))
check_some_member_iff (m ∷ ms) rest = (λ h. (λ e. cc, h), λ h. h.1)

check_attribution_iff :
    (o : Output) → (check_attribution o ≡ ok tt) ↔ (length o.cited ≡ length o.workspace.members)
check_attribution_iff o = ground arith

checked_iff : (o : Output) (r : Result (Unit {0})) → (checked o r ≡ ok o) ↔ (r ≡ ok tt)
checked_iff o (ok _) = (λ h. refl, λ h. refl)
checked_iff o (err f) = (λ h. absurd (cc), λ h. absurd (cc))

-- An output can be built over a workspace and its citations exactly if the workspace has an id
-- and a member, every member names its repository, branch and revision, and there is one list of
-- citations for each member.
pub new_workspace_iff :
    (w : Workspace) (cited : List (List Evidence))
    → (new_workspace w cited ≡ ok (record { workspace = w; cited = cited })) ↔ IsEmittable w cited
unfolding new_workspace validate
new_workspace_iff w cited =
    let o : Output = record { workspace = w; cited = cited } in
    (
      λ h.
          let (id, h₁) = (require_field_iff w.id _).0 ((checked_iff o _).0 h) in
          let (some_member, h₂) = (check_some_member_iff w.members _).0 h₁ in
          let (scoped, h₃) = (check_members_iff w.members _).0 h₂ in
          record {
            id = id;
            some_member = some_member;
            scoped = scoped;
            attributed = (check_attribution_iff o).0 h₃;
          },
      λ e. (checked_iff o _).1 (
          (require_field_iff w.id _).1 (
            e.id,
            (check_some_member_iff w.members _).1 (
              e.some_member,
              (check_members_iff w.members _).1
                  (e.scoped, (check_attribution_iff o).1 e.attributed),
            ),
          )),
    )
