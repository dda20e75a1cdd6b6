-- ===== src/Config/Graphs.antt =====
-- One graph for one version, over all members of all contexts, and what sorting keeps.
use version_aware_code_mcp.Prelude.{
  Text, List, [], ◌∷◌, ◌≡◌, ◌⊎◌, ◌↔◌, inl, inr, refl, ap, sym, subst, ◌∙◌, All-In, All-intro, In,
  Bool-cases, text_leb,
}
use version_aware_code_mcp.Vacctx.{CodeContext, Workspace}
use version_aware_code_mcp.Config.{sorted, insert_entry}
use version_aware_code_mcp.Config.Agreement.{Agree, Consistent, onto}
use version_aware_code_mcp.Config.Checks.{onto_all}

Agree-sym : (m n : CodeContext) → Agree m n → Agree n m
Agree-sym m n a e = (sym (a (sym e)).0, sym (a (sym e)).1)

Consistent→Agree :
    (xs : List CodeContext) → Consistent xs → (m n : CodeContext) → In m xs → In n xs → Agree m n
Consistent→Agree [] c m n i j = absurd i.1
Consistent→Agree (x ∷ xs) c m n (inl e) (inl f) = λ g. (
  ap (λ (k : CodeContext). k.repository) (e ∙ sym f),
  ap (λ (k : CodeContext). k.revision) (e ∙ sym f),
)
Consistent→Agree (x ∷ xs) c m n (inl e) (inr j) =
    subst (λ k. Agree k n) (sym e) (Agree-sym n x (All-In (λ k. Agree k x) xs c.0 j))
Consistent→Agree (x ∷ xs) c m n (inr i) (inl f) =
    subst (λ k. Agree m k) (sym f) (All-In (λ k. Agree k x) xs c.0 i)
Consistent→Agree (x ∷ xs) c m n (inr i) (inr j) = Consistent→Agree xs c.1 m n i j

Agree→Consistent :
    (xs : List CodeContext) → ((m n : CodeContext) → In m xs → In n xs → Agree m n) → Consistent xs
Agree→Consistent [] h = tt
Agree→Consistent (x ∷ xs) h = (
  All-intro (λ n. Agree n x) xs (λ n i. h n x (inr i) (inl refl)),
  Agree→Consistent xs (λ m n i j. h m n (inr i) (inr j)),
)

In-onto :
    (ms seen : List CodeContext) (m : CodeContext) → In m (onto ms seen) ↔ (In m ms ⊎ In m seen)
In-onto [] seen m = (inr, λ h. elim h [ inl n ↦ absurd n.1 | inr i ↦ i ])
In-onto (x ∷ ms) seen m = (
  λ i. elim ((In-onto ms (x ∷ seen) m).0 i) [
    | inl j ↦ inl (inr j)
    | inr (inl e) ↦ inl (inl e)
    | inr (inr j) ↦ inr j
  ],
  λ h.
      (In-onto ms (x ∷ seen) m).1
        (elim h [ inl (inl e) ↦ inr (inl e) | inl (inr j) ↦ inl j | inr j ↦ inr (inr j) ]),
)

-- `m` is a member of some context.
abbrev pub IsMember : CodeContext → List (Text × Workspace) → Type 0
IsMember m entries = (entry : Text × Workspace) × In entry entries × In m entry.1.members

In-onto_all :
    (entries : List (Text × Workspace)) (seen : List CodeContext) (m : CodeContext)
    → In m (onto_all entries seen) ↔ (IsMember m entries ⊎ In m seen)
In-onto_all [] seen m = (inr, λ h. elim h [ inl (e, i, j) ↦ absurd i.1 | inr i ↦ i ])
In-onto_all (entry ∷ rest) seen m = (
  λ i. elim ((In-onto_all rest (onto entry.1.members seen) m).0 i) [
    | inl (e, j, k) ↦ inl (e, inr j, k)
    | inr j ↦ elim ((In-onto entry.1.members seen m).0 j) [
      | inl k ↦ inl (entry, inl refl, k)
      | inr k ↦ inr k
    ]
  ],
  λ h. (In-onto_all rest (onto entry.1.members seen) m).1 (elim h [
    | inl (e, inl p, k) ↦
        inr ((In-onto entry.1.members seen m).1 (inl (subst (λ x. In m x.1.members) p k)))
    | inl (e, inr j, k) ↦ inl (e, j, k)
    | inr j ↦ inr ((In-onto entry.1.members seen m).1 (inr j))
  ]),
)

pub Consistent-onto_all_iff :
    (entries : List (Text × Workspace))
    → Consistent (onto_all entries [])
      ↔ ((m n : CodeContext) → IsMember m entries → IsMember n entries → Agree m n)
Consistent-onto_all_iff entries = (
  λ c m n i j.
      Consistent→Agree (onto_all entries []) c m n ((In-onto_all entries [] m).1 (inl i))
        ((In-onto_all entries [] n).1 (inl j)),
  λ h. Agree→Consistent (onto_all entries []) (λ m n i j. h m n (found m i) (found n j)),
)
  where
    found : (m : CodeContext) → In m (onto_all entries []) → IsMember m entries
    found m i = elim ((In-onto_all entries [] m).0 i) [ inl k ↦ k | inr n ↦ absurd n.1 ]

module _ {V : Type 0} where
  In-insert_entry :
      (e : Text × V) (xs : List (Text × V)) (x : Text × V)
      → In x (insert_entry e xs) ↔ ((x ≡ e) ⊎ In x xs)
  unfolding insert_entry
  In-insert_entry e [] x = (λ i. i, λ i. i)
  In-insert_entry e (f ∷ rest) x = elim (Bool-cases (text_leb e.0 f.0)) [
    | inl le ↦ rw le ((λ i. i), (λ i. i))
    | inr gt ↦ rw gt (
      λ i. elim i [
        | inl p ↦ inr (inl p)
        | inr j ↦ elim ((In-insert_entry e rest x).0 j) [ inl p ↦ inl p | inr k ↦ inr (inr k) ]
      ],
      λ i. elim i [
        | inl p ↦ inr ((In-insert_entry e rest x).1 (inl p))
        | inr (inl p) ↦ inl p
        | inr (inr k) ↦ inr ((In-insert_entry e rest x).1 (inr k))
      ],
    )
  ]

  pub In-sorted : (xs : List (Text × V)) (x : Text × V) → In x (sorted xs) ↔ In x xs
  unfolding sorted
  In-sorted [] x = (λ i. i, λ i. i)
  In-sorted (e ∷ rest) x = (
    λ i. elim ((In-insert_entry e (sorted rest) x).0 i) [
      | inl p ↦ inl p
      | inr j ↦ inr ((In-sorted rest x).0 j)
    ],
    λ i.
        (In-insert_entry e (sorted rest) x).1
          (elim i [ inl p ↦ inl p | inr j ↦ inr ((In-sorted rest x).1 j) ]),
  )
