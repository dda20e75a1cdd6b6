-- ===== src/Prelude/Sorting.antt =====
-- `slices.SortFunc`, as insertion under a Boolean test of the order.
use mathlib.Core.Path.{◌≡◌}
use mathlib.Core.Logic.{◌⊎◌, inl, inr, ◌↔◌}
use mathlib.Core.Bool.{Bool, true, false}
use mathlib.Core.List.{List, [], ◌∷◌}
use version_aware_code_mcp.Prelude.Tests.{if◌then◌else◌, Bool-cases}
use version_aware_code_mcp.Prelude.Lists.{In}

module _ {A : Type 0} (leb : A → A → Bool) where
  unfoldable pub insert_by : A → List A → List A
  insert_by x [] = x ∷ []
  insert_by x (y ∷ ys) = let rest = insert_by x ys in if leb x y then x ∷ y ∷ ys else y ∷ rest

  unfoldable pub sort_by : List A → List A
  unfolding insert_by
  sort_by [] = []
  sort_by (x ∷ xs) = insert_by x (sort_by xs)

  -- Each element is no greater than the next one.
  abbrev pub IsSorted : List A → Type 0
  IsSorted [] = Unit
  IsSorted (a ∷ []) = Unit
  IsSorted (a ∷ b ∷ rest) = (leb a b ≡ true) × IsSorted (b ∷ rest)

  In-insert_by : (x y : A) (ys : List A) → In x (insert_by y ys) ↔ ((x ≡ y) ⊎ In x ys)
  unfolding insert_by
  In-insert_by x y [] = (λ h. h, λ h. h)
  In-insert_by x y (z ∷ ys) = elim (Bool-cases (leb y z)) [
    | inl e ↦ rw e (λ h. h, λ h. h)
    | inr e ↦ rw e (
      λ h. elim h [
        | inl p ↦ inr (inl p)
        | inr i ↦ elim ((In-insert_by x y ys).0 i) [ inl p ↦ inl p | inr j ↦ inr (inr j) ]
      ],
      λ h. elim h [
        | inl p ↦ inr ((In-insert_by x y ys).1 (inl p))
        | inr (inl p) ↦ inl p
        | inr (inr i) ↦ inr ((In-insert_by x y ys).1 (inr i))
      ],
    )
  ]

  -- Sorting loses and adds nothing.
  pub In-sort_by : (x : A) (xs : List A) → In x (sort_by xs) ↔ In x xs
  unfolding sort_by
  In-sort_by x [] = (λ h. h, λ h. h)
  In-sort_by x (y ∷ xs) =
      let both_ways = In-insert_by x y (sort_by xs) in
      (
        λ h. elim (both_ways.0 h) [ inl p ↦ inl p | inr i ↦ inr ((In-sort_by x xs).0 i) ],
        λ h. elim h [
          | inl p ↦ both_ways.1 (inl p)
          | inr i ↦ both_ways.1 (inr ((In-sort_by x xs).1 i))
        ],
      )

  module _ (total : (a b : A) → leb a b ≡ false → leb b a ≡ true) where
    insert_by-IsSorted_after :
        (a b : A) (ys : List A)
        → leb a b ≡ false
        → IsSorted (b ∷ ys)
        → IsSorted (insert_by a ys)
        → IsSorted (b ∷ insert_by a ys)
    unfolding insert_by
    insert_by-IsSorted_after a b [] h s k = (total a b h, tt)
    insert_by-IsSorted_after a b (c ∷ ys) h s k = elim (Bool-cases (leb a c)) [
      | inl e ↦ rw e (total a b h, rw e at k)
      | inr e ↦ rw e (s.0, rw e at k)
    ]

    insert_by-IsSorted : (a : A) (ys : List A) → IsSorted ys → IsSorted (insert_by a ys)
    unfolding insert_by
    insert_by-IsSorted a [] s = tt
    insert_by-IsSorted a (b ∷ []) s = elim (Bool-cases (leb a b)) [
      | inl e ↦ rw e (e, tt)
      | inr e ↦ rw e (total a b e, tt)
    ]
    insert_by-IsSorted a (b ∷ c ∷ ys) s = elim (Bool-cases (leb a b)) [
      | inl e ↦ rw e (e, s)
      | inr e ↦ rw e (insert_by-IsSorted_after a b (c ∷ ys) e s (insert_by-IsSorted a (c ∷ ys) s.1))
    ]

    pub sort_by-IsSorted : (xs : List A) → IsSorted (sort_by xs)
    unfolding sort_by
    sort_by-IsSorted [] = tt
    sort_by-IsSorted (x ∷ xs) = insert_by-IsSorted x (sort_by xs) (sort_by-IsSorted xs)
