-- ===== src/Prelude/Unique.antt =====
-- Lists without repetition, and Boolean membership by a test that decides equality.
use mathlib.Core.Path.{◌≡◌, sym}
use mathlib.Core.Logic.{inl, inr, ◌↔◌}
use mathlib.Core.List.{List, [], ◌∷◌, ◌++◌}
use mathlib.Core.Bool.{Bool, true, false}
use native.Mathlib.Omega.{arith}
use version_aware_code_mcp.Prelude.Tests.{Bool-cases}
use version_aware_code_mcp.Prelude.Lists.{any, In, In-append}

abbrev pub Distinct {ℓ} : {A : Type ℓ} → List A → Type ℓ
Distinct [] = Unit
Distinct (x ∷ xs) = (¬ In x xs) × Distinct xs

module _ {ℓ} {A : Type ℓ} where
  pub Distinct-append_one :
      (xs : List A) (x : A) → Distinct xs → ¬ In x xs → Distinct (xs ++ x ∷ [])
  Distinct-append_one [] x d n = (λ i. i.1, tt)
  Distinct-append_one (y ∷ xs) x d n = (
    λ i. elim (In-append y xs (x ∷ []) i) [
      | inl old ↦ d.0 old
      | inr (inl e) ↦ n (inl (sym e))
      | inr (inr none_) ↦ none_.1
    ],
    Distinct-append_one xs x d.1 (λ i. n (inr i)),
  )

module _ {ℓ} {A : Type ℓ} (eq : A → A → Bool) (eq_iff : (a b : A) → (eq a b ≡ true) ↔ (a ≡ b)) where
  pub any→In : (x : A) (xs : List A) → any (eq x) xs ≡ true → In x xs
  any→In x [] h = absurd (cc)
  any→In x (y ∷ xs) h = elim (Bool-cases (eq x y)) [
    | inl e ↦ inl ((eq_iff x y).0 e)
    | inr e ↦ inr (any→In x xs (rw e at h))
  ]

  pub In→any : (x : A) (xs : List A) → In x xs → any (eq x) xs ≡ true
  In→any x [] i = absurd i.1
  In→any x (y ∷ xs) (inl e) = rw ((eq_iff x y).1 e)
  In→any x (y ∷ xs) (inr i) = rw (In→any x xs i) (ground arith)

  pub not-In_of_any : (x : A) (xs : List A) → any (eq x) xs ≡ false → ¬ In x xs
  not-In_of_any x xs h i = absurd (cc (In→any x xs i))
