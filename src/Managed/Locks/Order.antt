-- ===== src/Managed/Locks/Order.antt =====
-- The locks of several repositories are taken once each, in one order.
use version_aware_code_mcp.Prelude.{
  Text, List, [], ◌∷◌, true, false, ◌≡◌, ◌↔◌, inl, inr, refl, sym, ap, subst, ◌∙◌, codes, text_eq,
  text_eq_iff, text_leb, text_leb-total, Bool-cases, In, sort_by, IsSorted, In-sort_by,
  sort_by-IsSorted,
}
use version_aware_code_mcp.Effect.{ok, Effect, bind-eq-ok, lift-bind-eq-ok}
use version_aware_code_mcp.Store.{validate_name}
use version_aware_code_mcp.Managed.Locks.{
  Locks, holding, compact, lock_names, with_repository_lock, take_each, with_repository_locks,
}

-- Each name comes before the next one, and is another.
abbrev pub IsAscending : List Text → Type 0
IsAscending [] = Unit
IsAscending (a ∷ []) = Unit
IsAscending (a ∷ b ∷ rest) = (text_leb a b ≡ true) × (text_eq a b ≡ false) × IsAscending (b ∷ rest)

-- The first of a compacted list is the first of the list.
compact-first : (b : Text) (rest : List Text) → (ms : List Text) × (compact (b ∷ rest) ≡ b ∷ ms)
unfolding compact
compact-first b [] = ([], refl)
compact-first b (c ∷ rest) = elim (Bool-cases (text_eq b c)) [
  | inl e ↦
      let (ms, same) = compact-first c rest in
      rw e (ms, same ∙ ap (λ x. x ∷ ms) (sym ((text_eq_iff b c).0 e)))
  | inr e ↦ rw e (compact (c ∷ rest), refl)
]

compact-IsAscending : (xs : List Text) → IsSorted text_leb xs → IsAscending (compact xs)
unfolding compact
compact-IsAscending [] s = tt
compact-IsAscending (a ∷ []) s = tt
compact-IsAscending (a ∷ b ∷ rest) s = elim (Bool-cases (text_eq a b)) [
  | inl e ↦ rw e (compact-IsAscending (b ∷ rest) s.1)
  | inr e ↦
      let (ms, same) = compact-first b rest in
      let later : IsAscending (b ∷ ms) =
        subst IsAscending same (compact-IsAscending (b ∷ rest) s.1) in
      rw (e, same) (s.0, e, later)
]

In-compact : (x : Text) (xs : List Text) → In x (compact xs) ↔ In x xs
unfolding compact
In-compact x [] = (λ i. i, λ i. i)
In-compact x (a ∷ []) = (λ i. i, λ i. i)
In-compact x (a ∷ b ∷ rest) =
    let later = In-compact x (b ∷ rest) in
    elim (Bool-cases (text_eq a b)) [
      | inl e ↦ rw e (
        λ i. inr (later.0 i),
        λ i. elim i [ inl p ↦ later.1 (inl (p ∙ (text_eq_iff a b).0 e)) | inr j ↦ later.1 j ],
      )
      | inr e ↦ rw e (
        λ i. elim i [ inl p ↦ inl p | inr j ↦ inr (later.0 j) ],
        λ i. elim i [ inl p ↦ inl p | inr j ↦ inr (later.1 j) ],
      )
    ]

-- The locks of an operation are those of its repositories, each once, in ascending order: whatever
-- order two operations name their repositories in, they take the locks that they share in the same
-- one.
pub lock_names-IsAscending :
    (repositories : List Text)
    → IsAscending (lock_names repositories)
      × ((name : Text) → In name (lock_names repositories) ↔ In name repositories)
unfolding lock_names
lock_names-IsAscending repositories = (
  compact-IsAscending (sort_by text_leb repositories)
      (sort_by-IsSorted text_leb text_leb-total repositories),
  λ name.
      let a = In-compact name (sort_by text_leb repositories) in
      let b = In-sort_by text_leb name repositories in (λ i. b.0 (a.0 i), λ i. a.1 (b.1 i)),
)

module _ {S : Type 0} (l : Locks S) where
  -- The locks taken one after another, from the first state to the second, and given back in the
  -- opposite order, from the third state to the fourth.
  pub data AreTaken : List Text → S → S → S → S → Type 0 where
    all_taken : {s t : S} → AreTaken [] s s t t
    taken :
        {name : Text} {rest : List Text} {s v b t u : S}
        → l.take_lock name s ≡ (ok tt, v)
        → AreTaken rest v b t u
        → AreTaken (name ∷ rest) s b t (l.drop_lock name u)

module _ {S : Type 0} (l : Locks S) {A : Type 0} where
  pub holding-ok :
      (acquire : Effect S (Unit {0})) (release : S → S) (body : Effect S A) (s u : S) (a : A)
      → holding acquire release body s ≡ (ok a, u)
      → (v : S) × (t : S) × (acquire s ≡ (ok tt, v)) × (body v ≡ (ok a, t)) × (release t ≡ u)
  holding-ok acquire release body s u a h =
      let (x, v, got, rest) = bind-eq-ok acquire _ s h in
      (v, (body v).1, got, (λ i. (ap (λ z. z.0) rest i, (body v).1)), ap (λ z. z.1) rest)

  take_each-AreTaken :
      (names : List Text) (body : Effect S A) (s u : S) (a : A)
      → take_each l names body s ≡ (ok a, u)
      → (b : S) × (t : S) × AreTaken l names s b t u × (body b ≡ (ok a, t))
  unfolding take_each with_repository_lock
  take_each-AreTaken [] body s u a h = (s, u, AreTaken.all_taken, h)
  take_each-AreTaken (name ∷ rest) body s u a h =
      let (x, valid, held) = lift-bind-eq-ok (validate_name (codes "repository") name) _ s h in
      let (v, t, got, inner, back) =
        holding-ok (l.take_lock name) (l.drop_lock name) (take_each l rest body) s u a held in
      let (b, inside, later, ran) = take_each-AreTaken rest body v t a inner in
      (b, inside, subst (AreTaken l (name ∷ rest) s b inside) back (AreTaken.taken got later), ran)

  -- A body that ran under its repositories' locks ran in the state that taking them led to.
  pub with_repository_locks-AreTaken :
      (repositories : List Text) (body : Effect S A) (s u : S) (a : A)
      → with_repository_locks l repositories body s ≡ (ok a, u)
      → (b : S) × (t : S) × AreTaken l (lock_names repositories) s b t u × (body b ≡ (ok a, t))
  unfolding with_repository_locks
  with_repository_locks-AreTaken repositories body s u a h =
      take_each-AreTaken (lock_names repositories) body s u a h
