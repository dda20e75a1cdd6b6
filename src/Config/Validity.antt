-- ===== src/Config/Validity.antt =====
-- What a validated configuration guarantees: `validate` succeeds exactly on the valid ones.
use version_aware_code_mcp.Prelude.{
  Text, List, [], ◌∷◌, map, false, ◌≡◌, ◌↔◌, inl, inr, refl, subst, any, text_eq, text_eq_iff,
  is_blank, All, All-In, All-intro, In, Distinct, any→In, All-map, not-In_of_any, Bool-cases,
}
use version_aware_code_mcp.Vacctx.{CodeContext, Workspace}
use version_aware_code_mcp.Effect.{ok}
use version_aware_code_mcp.Config.{Repository, Config, sorted, is_nil, check_repositories, validate}
use version_aware_code_mcp.Config.Agreement.{
  IsServable, Agree, Unrepeated, and_then_iff, refuse_if_iff,
}
use version_aware_code_mcp.Config.Checks.{IsSound, check_contexts-ok, ok-check_contexts}
use version_aware_code_mcp.Config.Graphs.{IsMember, Consistent-onto_all_iff, In-sorted}

abbrev pub repository_of : CodeContext → Text
repository_of m = m.repository

-- One entry of the contexts that may be served.
pub record IsServed (repositories : List (Text × Repository)) (entry : Text × Workspace)
    : Type 0 where
  pub id : is_blank entry.0 ≡ false
  pub some_member : is_nil entry.1.members ≡ false
  pub servable : All (IsServable repositories) entry.1.members
  pub distinct : Distinct (map repository_of entry.1.members)

-- A valid configuration: every repository has a name and a path, there is a context, every
-- context may be served, and no graph is shared by two versions.
pub record IsValid (c : Config) : Type 0 where
  pub repositories :
      (entry : Text × Repository)
      → In entry c.repositories
      → (is_blank entry.0 ≡ false) × (is_blank entry.1.path ≡ false)
  pub some_context : is_nil c.contexts ≡ false
  pub served : (entry : Text × Workspace) → In entry c.contexts → IsServed c.repositories entry
  pub one_version : (m n : CodeContext) → IsMember m c.contexts → IsMember n c.contexts → Agree m n

In-text_eq :
    (k : Text) (declared : List Text) → (any (text_eq k) declared ≡ false) ↔ (¬ In k declared)
In-text_eq k declared = (
  not-In_of_any text_eq text_eq_iff k declared,
  λ n. elim (Bool-cases (any (text_eq k) declared)) [
    | inl hit ↦ absurd (n (any→In text_eq text_eq_iff k declared hit))
    | inr miss ↦ miss
  ],
)

Unrepeated-Distinct :
    (declared : List Text) (ms : List CodeContext)
    → Unrepeated declared ms
      ↔ (Distinct (map repository_of ms) × All (λ k. ¬ In k declared) (map repository_of ms))
Unrepeated-Distinct declared [] = (λ u. (tt, tt), λ d. tt)
Unrepeated-Distinct declared (m ∷ ms) = (
  λ u.
      let (d, n) = (Unrepeated-Distinct (m.repository ∷ declared) ms).0 u.1 in
      (
        (
          λ i. All-In (λ k. ¬ In k (m.repository ∷ declared)) (map repository_of ms) n i (inl refl),
          d,
        ),
        (
          (In-text_eq m.repository declared).0 u.0,
          All-map (λ k. ¬ In k (m.repository ∷ declared)) (λ k. ¬ In k declared)
              (map repository_of ms) (λ k f i. f (inr i)) n,
        ),
      ),
  λ d. (
    (In-text_eq m.repository declared).1 d.1.0,
    (Unrepeated-Distinct (m.repository ∷ declared) ms).1 (
      d.0.1,
      All-intro (λ k. ¬ In k (m.repository ∷ declared)) (map repository_of ms)
          (λ k i j. elim j [
            | inl e ↦ d.0.0 (subst (λ x. In x (map repository_of ms)) e i)
            | inr l ↦ All-In (λ x. ¬ In x declared) (map repository_of ms) d.1.1 i l
          ]),
    ),
  ),
)

check_repositories_iff :
    (repositories : List (Text × Repository))
    → (check_repositories repositories ≡ ok tt)
      ↔ All (λ entry. (is_blank entry.0 ≡ false) × (is_blank entry.1.path ≡ false)) repositories
unfolding check_repositories
check_repositories_iff [] = (λ h. tt, λ h. refl)
check_repositories_iff ((name, repo) ∷ rest) = (
  λ h.
      let (a, r) = (and_then_iff _ _).0 h in
      let (b, s) = (and_then_iff _ _).0 r in
      (((refuse_if_iff _ _).0 a, (refuse_if_iff _ _).0 b), (check_repositories_iff rest).0 s),
  λ h. rw (h.0.0, h.0.1) ((check_repositories_iff rest).1 h.1),
)

IsSound-IsServed :
    (repositories : List (Text × Repository)) (entry : Text × Workspace)
    → IsSound repositories entry ↔ IsServed repositories entry
IsSound-IsServed repositories entry = (
  λ s. record {
    id = s.id;
    some_member = s.some_member;
    servable = s.servable;
    distinct = ((Unrepeated-Distinct [] entry.1.members).0 s.unrepeated).0;
  },
  λ s. record {
    id = s.id;
    some_member = s.some_member;
    servable = s.servable;
    unrepeated =
        (Unrepeated-Distinct [] entry.1.members).1 (
          s.distinct,
          All-intro (λ k. ¬ In k []) (map repository_of entry.1.members) (λ k i j. j.1),
        );
  },
)

IsMember-sorted :
    (m : CodeContext) (c : Config) → IsMember m (sorted c.contexts) ↔ IsMember m c.contexts
IsMember-sorted m c = (
  λ h. (h.0, (In-sorted c.contexts h.0).0 h.1, h.2),
  λ h. (h.0, (In-sorted c.contexts h.0).1 h.1, h.2),
)

-- A configuration is accepted exactly if it is valid; in particular an accepted one never lets two
-- members of any of its contexts share a graph unless they are the same revision of one repository.
pub validate_iff : (c : Config) → (validate c ≡ ok tt) ↔ IsValid c
unfolding validate
validate_iff c = (
  λ h.
      let (named, rest) = (and_then_iff _ _).0 h in
      let (filled, checked) = (and_then_iff _ _).0 rest in
      let (sound, consistent) =
        check_contexts-ok c.repositories [] (sorted c.contexts) tt checked in
      record {
        repositories = λ entry i.
            All-In (λ e. (is_blank e.0 ≡ false) × (is_blank e.1.path ≡ false))
              (sorted c.repositories) ((check_repositories_iff (sorted c.repositories)).0 named)
              ((In-sorted c.repositories entry).1 i);
        some_context = (refuse_if_iff _ _).0 filled;
        served = λ entry i. (IsSound-IsServed c.repositories entry).0 (
            All-In (IsSound c.repositories) (sorted c.contexts) sound
              ((In-sorted c.contexts entry).1 i));
        one_version = λ m n i j.
            (Consistent-onto_all_iff (sorted c.contexts)).0 consistent m n
              ((IsMember-sorted m c).1 i) ((IsMember-sorted n c).1 j);
      },
  λ v. (and_then_iff _ _).1 (
    (check_repositories_iff (sorted c.repositories)).1 (
        All-intro _ (sorted c.repositories)
          (λ entry i. v.repositories entry ((In-sorted c.repositories entry).0 i))),
    (and_then_iff _ _).1 (
      (refuse_if_iff _ _).1 v.some_context,
      ok-check_contexts c.repositories [] (sorted c.contexts)
          (All-intro (IsSound c.repositories) (sorted c.contexts) (λ entry i.
            (IsSound-IsServed c.repositories entry).1
              (v.served entry ((In-sorted c.contexts entry).0 i))))
          ((Consistent-onto_all_iff (sorted c.contexts)).1
            (λ m n i j. v.one_version m n ((IsMember-sorted m c).0 i) ((IsMember-sorted n c).0 j))),
    ),
  ),
)
