-- ===== src/Config/Agreement.antt =====
-- What the check of one member guarantees, and the members seen before it.
use version_aware_code_mcp.Prelude.{
  Text, List, [], ◌∷◌, some, Bool, true, false, not, ◌≡◌, ◌↔◌, inl, inr, refl, sym, ◌∙◌, arith, any,
  text_eq, text_eq_iff, is_blank, All, Bool-cases, codes, All-map,
}
use version_aware_code_mcp.Vacctx.{CodeContext}
use version_aware_code_mcp.Vacerr
use version_aware_code_mcp.Vacerr.{Failure, invalid_argument}
use version_aware_code_mcp.Effect.{Result, ok, err}
use version_aware_code_mcp.Config.{
  Repository, lookup, and_then, refuse_if, is_none, check_fields, check_declared, by_graph_ref,
  same_version, conflict, check_member,
}

-- A member that may be served: every field is there, and its repository is configured.
pub record IsServable (repositories : List (Text × Repository)) (m : CodeContext) : Type 0 where
  pub repository : is_blank m.repository ≡ false
  pub branch : is_blank m.branch ≡ false
  pub revision : is_blank m.revision ≡ false
  pub graph_ref : is_blank m.graph_ref ≡ false
  pub configured : is_none (lookup m.repository repositories) ≡ false

-- Two members that share a graph are one version of one repository.
abbrev pub Agree : CodeContext → CodeContext → Type 0
Agree m n = m.graph_ref ≡ n.graph_ref → (m.repository ≡ n.repository) × (m.revision ≡ n.revision)

-- No repository of the list is in `declared` or repeated.
abbrev pub Unrepeated : List Text → List CodeContext → Type 0
Unrepeated declared [] = Unit
Unrepeated declared (m ∷ ms) =
    (any (text_eq m.repository) declared ≡ false) × Unrepeated (m.repository ∷ declared) ms

abbrev pub Consistent : List CodeContext → Type 0
Consistent [] = Unit
Consistent (m ∷ ms) = All (λ n. Agree n m) ms × Consistent ms

-- The members in the order that they are put in front of `byGraphRef`.
abbrev pub onto : List CodeContext → List CodeContext → List CodeContext
onto [] seen = seen
onto (m ∷ ms) seen = onto ms (m ∷ seen)

same_version_iff :
    (m n : CodeContext)
    → (same_version m n ≡ true) ↔ ((m.repository ≡ n.repository) × (m.revision ≡ n.revision))
same_version_iff m n =
    ground (arith, text_eq_iff m.repository n.repository, text_eq_iff m.revision n.revision)

conflict-same :
    (id : Text) (m n : CodeContext) → conflict id m (some n) ≡ ok tt → same_version n m ≡ true
conflict-same id m n h = go (same_version n m) h
  where
    go :
        (b : Bool)
        → refuse_if (not b) (
            Vacerr.new invalid_argument (
              (codes "context", Vacerr.text id)
              ∷ (codes "conflicting_context", Vacerr.text n.id)
              ∷ (codes "graph_ref", Vacerr.text m.graph_ref)
              ∷ []))
          ≡ ok tt
        → b ≡ true
    go true h = refl
    go false h = absurd (cc)

-- Among consistent members, agreeing with the one that the map holds is agreeing with all.
pub conflict→Agree :
    (id : Text) (m : CodeContext) (seen : List CodeContext)
    → Consistent seen
    → conflict id m (by_graph_ref m.graph_ref seen) ≡ ok tt
    → All (λ n. Agree n m) seen
unfolding by_graph_ref
conflict→Agree id m [] c h = tt
conflict→Agree id m (n ∷ seen) c h = elim (Bool-cases (text_eq n.graph_ref m.graph_ref)) [
  | inl hit ↦
      let g : n.graph_ref ≡ m.graph_ref = (text_eq_iff n.graph_ref m.graph_ref).0 hit in
      let q : (n.repository ≡ m.repository) × (n.revision ≡ m.revision) =
        (same_version_iff n m).0 (conflict-same id m n (rw hit at h)) in
      (
        λ e. q,
        All-map (λ k. Agree k n) (λ k. Agree k m) seen
            (λ k a e. ((a (e ∙ sym g)).0 ∙ q.0, (a (e ∙ sym g)).1 ∙ q.1)) c.0,
      )
  | inr miss ↦ (
    λ e. absurd (cc ((text_eq_iff n.graph_ref m.graph_ref).1 e)),
    conflict→Agree id m seen c.1 (rw miss at h),
  )
]

pub Agree→conflict :
    (id : Text) (m : CodeContext) (seen : List CodeContext)
    → All (λ n. Agree n m) seen
    → conflict id m (by_graph_ref m.graph_ref seen) ≡ ok tt
unfolding by_graph_ref
Agree→conflict id m [] h = refl
Agree→conflict id m (n ∷ seen) h = elim (Bool-cases (text_eq n.graph_ref m.graph_ref)) [
  | inl hit ↦ rw (hit, (same_version_iff n m).1 (h.0 ((text_eq_iff n.graph_ref m.graph_ref).0 hit)))
  | inr miss ↦ rw miss (Agree→conflict id m seen h.1)
]

pub and_then_iff :
    {A : Type 0} (r : Result (Unit {0})) (s : Result A) {a : A}
    → (and_then r s ≡ ok a) ↔ ((r ≡ ok tt) × (s ≡ ok a))
and_then_iff (ok t) s = (λ h. (refl, h), λ h. h.1)
and_then_iff (err f) s = (λ h. absurd (cc), λ h. absurd (cc (h.0)))

pub refuse_if_iff : (b : Bool) (f : Failure) → (refuse_if b f ≡ ok tt) ↔ (b ≡ false)
refuse_if_iff true f = (λ h. absurd (cc), λ h. absurd (cc))
refuse_if_iff false f = (λ h. refl, λ h. refl)

pub check_member-ok :
    (repositories : List (Text × Repository)) (id : Text) (declared : List Text)
    (seen : List CodeContext) (m : CodeContext)
    → check_member repositories id declared seen m ≡ ok tt
    → IsServable repositories m
      × (any (text_eq m.repository) declared ≡ false)
      × (conflict id m (by_graph_ref m.graph_ref seen) ≡ ok tt)
unfolding check_member
check_member-ok repositories id declared seen m h =
    let (fields, rest) = (and_then_iff (check_fields id m) _).0 h in
    let (known, agreed) = (and_then_iff (check_declared repositories id declared m) _).0 rest in
    let (a, b) = (and_then_iff _ _).0 known in
    let (f1, r1) = (and_then_iff _ _).0 fields in
    let (f2, r2) = (and_then_iff _ _).0 r1 in
    let (f3, f4) = (and_then_iff _ _).0 r2 in
    (
      record {
        repository = (refuse_if_iff _ _).0 f1;
        branch = (refuse_if_iff _ _).0 f2;
        revision = (refuse_if_iff _ _).0 f3;
        graph_ref = (refuse_if_iff _ _).0 f4;
        configured = (refuse_if_iff _ _).0 a;
      },
      (refuse_if_iff _ _).0 b,
      agreed,
    )

pub ok-check_member :
    (repositories : List (Text × Repository)) (id : Text) (declared : List Text)
    (seen : List CodeContext) (m : CodeContext)
    → IsServable repositories m
    → any (text_eq m.repository) declared ≡ false
    → conflict id m (by_graph_ref m.graph_ref seen) ≡ ok tt
    → check_member repositories id declared seen m ≡ ok tt
unfolding check_member
ok-check_member repositories id declared seen m s d c =
    rw (s.repository, s.branch, s.revision, s.graph_ref, s.configured, d) c
