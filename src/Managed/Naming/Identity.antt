-- ===== src/Managed/Naming/Identity.antt =====
-- What a record that passes names, and which contexts a search ref tells apart.
use version_aware_code_mcp.Prelude.{
  ℕ, zero, suc, ◌≤◌, Text, List, [], ◌∷◌, ◌++◌, Bool, true, false, ◌==◌, ==_iff, ◌≡◌, ◌↔◌, inl, inr,
  refl, sym, ap, ◌∙◌, arith, codes, text_eq, text_eq_iff, length, take, Bool-cases, All,
  length-append,
}
use version_aware_code_mcp.Effect.{ok}
use version_aware_code_mcp.Store.{ContextMember, Context}
use version_aware_code_mcp.Managed.Naming.{
  full_sha, short_sha, is_several, dashed, search_ref, graph_ref, check_identities, verify_identity,
}

-- A member that names its own artifacts.
pub record IsGenerated (several : Bool) (id : Text) (m : ContextMember) : Type 0 where
  pub full : length m.revision ≡ full_sha
  pub searched : m.branch ≡ search_ref several id m
  pub traced : m.graph_ref ≡ graph_ref id m

check_identities_iff :
    (several : Bool) (id : Text) (ms : List ContextMember)
    → (check_identities several id ms ≡ ok tt) ↔ All (IsGenerated several id) ms
unfolding check_identities
check_identities_iff several id [] = (λ h. tt, λ a. refl)
check_identities_iff several id (m ∷ rest) =
    let later = check_identities_iff several id rest in
    (
      λ h. elim (Bool-cases (length m.revision == full_sha)) [
        | inr short ↦ absurd (cc (rw short at h))
        | inl full ↦ elim (Bool-cases (text_eq m.branch (search_ref several id m))) [
          | inr other ↦ absurd (cc (rw (full, other) at h))
          | inl searched ↦ elim (Bool-cases (text_eq m.graph_ref (graph_ref id m))) [
            | inr other ↦ absurd (cc (rw (full, searched, other) at h))
            | inl traced ↦ (
              record {
                full = (==_iff (length m.revision) full_sha).0 full;
                searched = (text_eq_iff m.branch (search_ref several id m)).0 searched;
                traced = (text_eq_iff m.graph_ref (graph_ref id m)).0 traced;
              },
              later.0 (rw (full, searched, traced) at h),
            )
          ]
        ]
      ],
      λ a.
          rw
            (
              (==_iff (length m.revision) full_sha).1 a.0.full,
              (text_eq_iff m.branch (search_ref several id m)).1 a.0.searched,
              (text_eq_iff m.graph_ref (graph_ref id m)).1 a.0.traced,
            )
            (later.1 a.1),
    )

-- A record passes exactly if each of its members is pinned at a full SHA and names the search ref
-- and the graph that the context's own name, the member's repository and that SHA generate.
pub verify_identity_iff :
    (c : Context)
    → (verify_identity c ≡ ok tt) ↔ All (IsGenerated (is_several c.members) c.id) c.members
unfolding verify_identity
verify_identity_iff c = check_identities_iff (is_several c.members) c.id c.members

append-cancel : (xs ys s t : Text) → length s ≡ length t → xs ++ s ≡ ys ++ t → xs ≡ ys
append-cancel [] [] s t l h = refl
append-cancel [] (y ∷ ys) s t l h = absurd (omega (arith, ap length h, length-append ys t, l))
append-cancel (x ∷ xs) [] s t l h = absurd (omega (arith, ap length h, length-append xs s, l))
append-cancel (x ∷ xs) (y ∷ ys) s t l h =
    let rest = append-cancel xs ys s t l (ground (arith, h)) in
    let head : x ≡ y = ground (arith, h) in λ i. head i ∷ rest i

length-short : (n : ℕ) (s : Text) → n ≤ length s → length (take n s) ≡ n
length-short zero s h = refl
length-short (suc n) [] h = absurd (omega arith)
length-short (suc n) (c ∷ s) h = ap suc (length-short n s (omega arith))

drop_front : (p s t : Text) → p ++ s ≡ p ++ t → s ≡ t
drop_front [] s t h = h
drop_front (c ∷ p) s t h = drop_front p s t (ground (arith, h))

dashed-injective : (a b s t : Text) → length s ≡ length t → dashed a s ≡ dashed b t → a ≡ b
dashed-injective a b s t l h = append-cancel a b (codes "-" ++ s) (codes "-" ++ t) (ap suc l) h

-- Two members at full SHAs in one repository, both of contexts with one member or both of contexts
-- with several, have one search ref only if they are of one context.
pub search_ref-injective :
    (several : Bool) (id other : Text) (m n : ContextMember)
    → length m.revision ≡ full_sha
    → length n.revision ≡ full_sha
    → m.repository ≡ n.repository
    → search_ref several id m ≡ search_ref several other n
    → id ≡ other
unfolding search_ref
search_ref-injective several id other m n full_m full_n one h =
    let short : length (take short_sha m.revision) ≡ length (take short_sha n.revision) =
      length-short short_sha m.revision (omega (arith, full_m))
      ∙ sym (length-short short_sha n.revision (omega (arith, full_n))) in
    go several short h
  where
    go :
        (b : Bool)
        → length (take short_sha m.revision) ≡ length (take short_sha n.revision)
        → search_ref b id m ≡ search_ref b other n
        → id ≡ other
    go false l k =
        dashed-injective id other (take short_sha m.revision) (take short_sha n.revision) l
          (drop_front (codes "vacmcp/") _ _ k)
    go true l k =
        let tail =
          drop_front (codes "vacmcp/") (dashed m.repository (dashed id (take short_sha m.revision)))
            (dashed n.repository (dashed other (take short_sha n.revision))) k in
        let same : m.repository ++ (codes "-" ++ dashed id (take short_sha m.revision))
            ≡ m.repository ++ (codes "-" ++ dashed other (take short_sha n.revision)) =
          tail ∙ ap (λ r. r ++ (codes "-" ++ dashed other (take short_sha n.revision))) (sym one) in
        dashed-injective id other (take short_sha m.revision) (take short_sha n.revision) l
          (drop_front (codes "-") _ _ (drop_front m.repository _ _ same))
