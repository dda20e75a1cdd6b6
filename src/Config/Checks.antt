-- ===== src/Config/Checks.antt =====
-- What the loops over members and contexts check, in both directions.
use version_aware_code_mcp.Prelude.{
  Text, List, [], ◌∷◌, false, ◌≡◌, refl, subst, arith, is_blank, All,
}
use version_aware_code_mcp.Vacctx.{CodeContext, Workspace}
use version_aware_code_mcp.Effect.{Result, ok, err}
use version_aware_code_mcp.Config.{
  Repository, is_nil, check_member, check_members, check_context, check_contexts, bind_result,
}
use version_aware_code_mcp.Config.Agreement.{
  IsServable, Unrepeated, Consistent, onto, conflict→Agree, Agree→conflict, check_member-ok,
  ok-check_member, and_then_iff, refuse_if_iff,
}

module _ (repositories : List (Text × Repository)) (id : Text) where
  check_members-ok :
      (declared : List Text) (seen ms out : List CodeContext)
      → Consistent seen
      → check_members repositories id declared seen ms ≡ ok out
      → (out ≡ onto ms seen)
        × All (IsServable repositories) ms
        × Unrepeated declared ms
        × Consistent (onto ms seen)
  unfolding check_members
  check_members-ok declared seen [] out c h = (ground arith, tt, tt, c)
  check_members-ok declared seen (m ∷ rest) out c h =
      let (checked, others) =
        (and_then_iff (check_member repositories id declared seen m)
            (check_members repositories id (m.repository ∷ declared) (m ∷ seen) rest)).0
          h in
      let (servable, new, agreed) = check_member-ok repositories id declared seen m checked in
      let (e, s, u, c') =
        check_members-ok (m.repository ∷ declared) (m ∷ seen) rest out
          (conflict→Agree id m seen c agreed, c) others in
      (e, (servable, s), (new, u), c')

  Consistent-onto : (ms seen : List CodeContext) → Consistent (onto ms seen) → Consistent seen
  Consistent-onto [] seen c = c
  Consistent-onto (m ∷ ms) seen c = (Consistent-onto ms (m ∷ seen) c).1

  ok-check_members :
      (declared : List Text) (seen ms : List CodeContext)
      → All (IsServable repositories) ms
      → Unrepeated declared ms
      → Consistent (onto ms seen)
      → check_members repositories id declared seen ms ≡ ok (onto ms seen)
  unfolding check_members
  ok-check_members declared seen [] s u c = refl
  ok-check_members declared seen (m ∷ rest) s u c =
      (and_then_iff (check_member repositories id declared seen m)
          (check_members repositories id (m.repository ∷ declared) (m ∷ seen) rest)).1
        (
          ok-check_member repositories id declared seen m s.0 u.0
              (Agree→conflict id m seen (Consistent-onto rest (m ∷ seen) c).0),
          ok-check_members (m.repository ∷ declared) (m ∷ seen) rest s.1 u.1 c,
        )

-- One entry of the contexts that may be served: it has an id and members, each servable, and no
-- repository twice.
pub record IsSound (repositories : List (Text × Repository)) (entry : Text × Workspace)
    : Type 0 where
  pub id : is_blank entry.0 ≡ false
  pub some_member : is_nil entry.1.members ≡ false
  pub servable : All (IsServable repositories) entry.1.members
  pub unrepeated : Unrepeated [] entry.1.members

-- The members of all entries, as they are put in front of `byGraphRef`.
abbrev pub onto_all : List (Text × Workspace) → List CodeContext → List CodeContext
onto_all [] seen = seen
onto_all (entry ∷ rest) seen = onto_all rest (onto entry.1.members seen)

bind_result-ok :
    {A B : Type 0} (r : Result A) (f : A → Result B) {b : B}
    → bind_result r f ≡ ok b
    → (a : A) × (r ≡ ok a) × (f a ≡ ok b)
bind_result-ok (ok a) f h = (a, refl, h)
bind_result-ok (err x) f h = absurd (cc)

module _ (repositories : List (Text × Repository)) where
  check_context-ok :
      (id : Text) (ws : Workspace) (seen after : List CodeContext)
      → Consistent seen
      → check_context repositories id ws seen ≡ ok after
      → IsSound repositories (id, ws)
        × (after ≡ onto ws.members seen)
        × Consistent (onto ws.members seen)
  unfolding check_context
  check_context-ok id ws seen after c h =
      let (named, rest) = (and_then_iff _ _).0 h in
      let (filled, members) = (and_then_iff _ _).0 rest in
      let (e, s, u, c') = check_members-ok repositories id [] seen ws.members after c members in
      (
        record {
          id = (refuse_if_iff _ _).0 named;
          some_member = (refuse_if_iff _ _).0 filled;
          servable = s;
          unrepeated = u;
        },
        e,
        c',
      )

  ok-check_context :
      (id : Text) (ws : Workspace) (seen : List CodeContext)
      → IsSound repositories (id, ws)
      → Consistent (onto ws.members seen)
      → check_context repositories id ws seen ≡ ok (onto ws.members seen)
  unfolding check_context
  ok-check_context id ws seen s c =
      rw (s.id, s.some_member)
        (ok-check_members repositories id [] seen ws.members s.servable s.unrepeated c)

  pub check_contexts-ok :
      (seen : List CodeContext) (entries : List (Text × Workspace))
      → Consistent seen
      → check_contexts repositories seen entries ≡ ok tt
      → All (IsSound repositories) entries × Consistent (onto_all entries seen)
  unfolding check_contexts
  check_contexts-ok seen [] c h = (tt, c)
  check_contexts-ok seen ((id, ws) ∷ rest) c h =
      let (after, checked, others) = bind_result-ok (check_context repositories id ws seen) _ h in
      let (s, e, c') = check_context-ok id ws seen after c checked in
      let (ss, cs) =
        check_contexts-ok (onto ws.members seen) rest c'
          (subst (λ x. check_contexts repositories x rest ≡ ok tt) e others) in
      ((s, ss), cs)

  Consistent-onto_all :
      (entries : List (Text × Workspace)) (seen : List CodeContext)
      → Consistent (onto_all entries seen)
      → Consistent seen
  Consistent-onto_all [] seen c = c
  Consistent-onto_all ((id, ws) ∷ rest) seen c =
      Consistent-onto repositories id ws.members seen
        (Consistent-onto_all rest (onto ws.members seen) c)

  pub ok-check_contexts :
      (seen : List CodeContext) (entries : List (Text × Workspace))
      → All (IsSound repositories) entries
      → Consistent (onto_all entries seen)
      → check_contexts repositories seen entries ≡ ok tt
  unfolding check_contexts
  ok-check_contexts seen [] s c = refl
  ok-check_contexts seen ((id, ws) ∷ rest) s c =
      rw (ok-check_context id ws seen s.0 (Consistent-onto_all rest (onto ws.members seen) c))
        (ok-check_contexts (onto ws.members seen) rest s.1 c)
