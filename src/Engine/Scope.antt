-- ===== src/Engine/Scope.antt =====
-- What passing the engine's resolution and selection says of the members.
use version_aware_code_mcp.Prelude.{
  Text, List, [], ◌∷◌, Option, none, some, true, false, ◌≡◌, ◌≢◌, ◌⊎◌, inl, inr, refl, arith, All,
  In, All-In, is_blank, text_eq, text_eq_iff, Bool-cases, Option-cases, sym, subst, ap, ap₂, ℤ, pos,
  ◌≤ℤ◌, ◌∙◌,
}
use version_aware_code_mcp.Vacctx.{CodeContext, Workspace}
use version_aware_code_mcp.Effect.{
  Result, ok, err, Effect, pure, lift, ◌>>=◌, bind-eq-ok, lift-bind-eq-ok,
}
use version_aware_code_mcp.Vacerr.{Failure}
use version_aware_code_mcp.Engine.{
  Engine, min_depth, max_depth, depth_out_of_range, and_then, require, check_member, check_members,
  resolve, find_member, select_named, select_from, select_members, single, only_member,
}

-- Complete enough to scope a query with.
pub record IsComplete (m : CodeContext) : Type 0 where
  pub id : is_blank m.id ≡ false
  pub repository : is_blank m.repository ≡ false
  pub branch : is_blank m.branch ≡ false
  pub revision : is_blank m.revision ≡ false

check_member-IsComplete : (id : Text) (m : CodeContext) → check_member id m ≡ ok tt → IsComplete m
unfolding check_member
check_member-IsComplete id m h = ground arith

and_then-ok : (a b : Result (Unit {0})) → and_then a b ≡ ok tt → (a ≡ ok tt) × (b ≡ ok tt)
and_then-ok (ok u) b h = (refl, h)
and_then-ok (err f) b h = absurd (cc)

pub check_members-All :
    (id : Text) (ms : List CodeContext) → check_members id ms ≡ ok tt → All IsComplete ms
unfolding check_members
check_members-All id [] h = tt
check_members-All id (m ∷ rest) h =
    let (first, others) = and_then-ok (check_member id m) (check_members id rest) h in
    (check_member-IsComplete id m first, check_members-All id rest others)

-- The members that a request's repository picks out of a workspace: all of them where it is blank,
-- and otherwise the one that names it.
abbrev pub Selected : Text → List CodeContext → List CodeContext → Type 0
Selected repository all chosen =
    ((is_blank repository ≡ true) × (chosen ≡ all) × (all ≢ []))
    ⊎ ((m : CodeContext) × (is_blank repository ≡ false)
        × (chosen ≡ m ∷ [])
        × (m.repository ≡ repository)
        × In m all)

find_member-some :
    (repository : Text) (ms : List CodeContext) (m : CodeContext)
    → find_member repository ms ≡ some m
    → (m.repository ≡ repository) × In m ms
unfolding find_member
find_member-some repository [] m h = absurd (cc)
find_member-some repository (n ∷ ms) m h = elim (Bool-cases (text_eq n.repository repository)) [
  | inl hit ↦
      let e : n ≡ m = ground arith in
      (
        subst (λ x. x.repository ≡ repository) e ((text_eq_iff n.repository repository).0 hit),
        inl (sym e),
      )
  | inr miss ↦ let (r, i) = find_member-some repository ms m (rw miss at h) in (r, inr i)
]

select_named-Selected :
    (id repository : Text) (ms : List CodeContext) (found : Option CodeContext)
    (out : List CodeContext)
    → find_member repository ms ≡ found
    → is_blank repository ≡ false
    → select_named id repository ms found ≡ ok out
    → Selected repository ms out
select_named-Selected id repository ms none out e b h = absurd (cc)
select_named-Selected id repository ms (some m) out e b h =
    let (r, i) = find_member-some repository ms m e in inr (m, b, ground arith, r, i)

pub select_from-Selected :
    (id repository : Text) (ms out : List CodeContext)
    → select_from id repository ms ≡ ok out
    → Selected repository ms out
unfolding select_from
select_from-Selected id repository [] out h = absurd (cc)
select_from-Selected id repository (m ∷ ms) out h = elim (Bool-cases (is_blank repository)) [
  | inl b ↦ inl (b, ground arith, λ e. cc)
  | inr b ↦ select_named-Selected id repository (m ∷ ms) _ out refl b (rw b at h)
]

-- What was selected is complete if the workspace is.
pub Selected-All :
    (P : CodeContext → Type 0) (repository : Text) (ms out : List CodeContext)
    → Selected repository ms out
    → All P ms
    → All P out
Selected-All P repository ms out (inl (b, e, n)) h = subst (All P) (sym e) h
Selected-All P repository ms out (inr (m, b, e, r, i)) h =
    subst (All P) (sym e) (All-In P ms h i, tt)

single-some : (ms : List CodeContext) (c : CodeContext) → single ms ≡ some c → ms ≡ c ∷ []
unfolding single
single-some [] c h = absurd (cc)
single-some (m ∷ []) c h = ground arith
single-some (m ∷ n ∷ ms) c h = absurd (cc)

pub only_member-ok :
    (refusal : Failure) (ms : List CodeContext) (c : CodeContext)
    → only_member refusal (single ms) ≡ ok c
    → ms ≡ c ∷ []
only_member-ok refusal ms c h = elim (Option-cases (single ms)) [
  | inl e ↦ absurd (cc)
  | inr (m, e) ↦ single-some ms c (ground arith)
]

-- The scope of a question: the context source named `workspace`, and `members` are those that the
-- request selected out of it, each of them complete.
pub record IsScope {W : Type 0} (e : Engine W) (id repository : Text) (w after : W)
    (workspace : Workspace) (members : List CodeContext) : Type 0 where
  pub resolved : e.contexts.resolve id w ≡ (ok workspace, after)
  pub selected : Selected repository workspace.members members
  pub complete : All IsComplete members

module _ {W : Type 0} (e : Engine W) (id : Text) where
  pub resolve-ok :
      (w after : W) (ws : Workspace)
      → resolve e id w ≡ (ok ws, after)
      → (e.contexts.resolve id w ≡ (ok ws, after)) × All IsComplete ws.members
  unfolding resolve
  resolve-ok w after ws h =
      let (ws', v, found, rest) = bind-eq-ok (e.contexts.resolve id) _ w h in
      let (u, checked, same) = lift-bind-eq-ok (check_members id ws'.members) _ v rest in
      let p : ws' ≡ ws = ground arith in
      let q : v ≡ after = ground arith in
      (
        found ∙ ap₂ (λ x y. (ok x, y)) p q,
        subst (λ x. All IsComplete x.members) p (check_members-All id ws'.members checked),
      )

  IsScope-select :
      (repository : Text) (w after : W) (ws : Workspace) (ms : List CodeContext)
      → resolve e id w ≡ (ok ws, after)
      → select_members id repository ws ≡ ok ms
      → IsScope e id repository w after ws ms
  IsScope-select repository w after ws ms h k =
      let (found, complete) = resolve-ok w after ws h in
      let chosen = select_from-Selected id repository ws.members ms k in
      record {
        resolved = found;
        selected = chosen;
        complete = Selected-All IsComplete repository ws.members ms chosen complete;
      }

  -- What every query begins with, passed.
  pub scoped-eq-ok :
      {B : Type 0} (repository : Text) (k : Workspace → List CodeContext → Effect W B) (w u : W)
      (b : B)
      → (resolve e id >>= λ ws. lift (select_members id repository ws) >>= λ ms. k ws ms) w
        ≡ (ok b, u)
      → (ws : Workspace) × (v : W) × (ms : List CodeContext) × IsScope e id repository w v ws ms
        × (k ws ms v ≡ (ok b, u))
  scoped-eq-ok repository k w u b h =
      let (ws, v, found, rest) = bind-eq-ok (resolve e id) _ w h in
      let (ms, chosen, rest') = lift-bind-eq-ok (select_members id repository ws) (k ws) v rest in
      (ws, v, ms, IsScope-select repository w v ws ms found chosen, rest')

-- What an effect that returns at once has returned.
pub pure-eq {ℓ} :
    {W A : Type 0} (P : A → W → Type ℓ) {a b : A} {w u : W} → pure a w ≡ (ok b, u) → P a w → P b u
pure-eq P {a} {b} {w} {u} h p =
    let e : a ≡ b = ground arith in
    let f : w ≡ u = ground arith in subst (λ x. P x u) e (subst (λ y. P a y) f p)

module _ {W : Type 0} (e : Engine W) (id : Text) where
  -- The four queries that narrow to one member, once they have.
  pub narrow-ok :
      (repository : Text) (refusal : List CodeContext → Failure) (w v : W) (c : CodeContext)
      → (resolve e id >>= λ ws. lift (select_members id repository ws) >>= λ ms.
            lift (only_member (refusal ms) (single ms)))
          w
        ≡ (ok c, v)
      → (ws : Workspace) × IsScope e id repository w v ws (c ∷ [])
  narrow-ok repository refusal w v c h =
      let (ws, v', ms, scope, rest) =
        scoped-eq-ok e id repository (λ ws ms. lift (only_member (refusal ms) (single ms))) w v c
          h in
      let p : only_member (refusal ms) (single ms) ≡ ok c = ap (λ x. x.0) rest in
      let q : v' ≡ v = ap (λ x. x.1) rest in
      (
        ws,
        subst (λ x. IsScope e id repository w x ws (c ∷ [])) q
            (subst (IsScope e id repository w v' ws) (only_member-ok (refusal ms) ms c p) scope),
      )

pub depth_in_range : (d : ℤ) → depth_out_of_range d ≡ false → (min_depth ≤ℤ d) × (d ≤ℤ max_depth)
unfolding depth_out_of_range
depth_in_range (pos n) h = ground arith
depth_in_range _ h = ground arith

pub require-ok : (id name value : Text) → require id name value ≡ ok tt → is_blank value ≡ false
unfolding require
require-ok id name value h = ground arith
