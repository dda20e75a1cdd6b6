-- ===== src/Effect.antt =====
-- Go functions that return `(T, error)`. `Result` is for those that touch nothing; `Effect W` is
-- for those that reach the outside world, whose state `W` is a parameter of the model: a call may
-- answer differently each time, and what it changed stays changed when it fails.
use version_aware_code_mcp.Prelude.{◌≡◌, ◌⊎◌, inl, inr, refl, ◌∙◌, arith}
use version_aware_code_mcp.Vacerr.{Failure}

pub data Result {ℓ} (A : Type ℓ) : Type ℓ where
  ok : A → Result A
  err : Failure → Result A

abbrev pub Effect : Type 0 → Type 0 → Type 0
Effect W A = W → Result A × W

abbrev pub pure : {W A : Type 0} → A → Effect W A
pure a w = (ok a, w)

abbrev pub fail : {W A : Type 0} → Failure → Effect W A
fail e w = (err e, w)

abbrev pub lift : {W A : Type 0} → Result A → Effect W A
lift r w = (r, w)

abbrev pub continue : {W A B : Type 0} → Result A → W → (A → Effect W B) → Result B × W
continue (ok a) w f = f a w
continue (err e) w f = (err e, w)

infixl 5 ◌>>=◌ ◌>>◌
abbrev pub ◌>>=◌ : {W A B : Type 0} → Effect W A → (A → Effect W B) → Effect W B
◌>>=◌ m f w = continue (m w).0 (m w).1 f

abbrev pub ◌>>◌ : {W B : Type 0} → Effect W (Unit {0}) → Effect W B → Effect W B
m >> k = m >>= λ _. k

-- The two parts of an effect's outcome.
pub both {ℓ κ} :
    {A : Type ℓ} {B : Type κ} {x : A × B} {a : A} {b : B} → x.0 ≡ a → x.1 ≡ b → x ≡ (a, b)
both p q = λ i. (p i, q i)

module _ {W A B : Type 0} (m : Effect W A) (f : A → Effect W B) (w : W) where
  -- An effect that succeeds has passed through its first part.
  pub bind-eq-ok :
      {b : B} {u : W}
      → (m >>= f) w ≡ (ok b, u)
      → (a : A) × (v : W) × (m w ≡ (ok a, v)) × (f a v ≡ (ok b, u))
  bind-eq-ok {b} {u} h = go (m w) refl h
    where
      go :
          (r : Result A × W)
          → m w ≡ r
          → continue r.0 r.1 f ≡ (ok b, u)
          → (a : A) × (v : W) × (m w ≡ (ok a, v)) × (f a v ≡ (ok b, u))
      go (ok a, v) e k = (a, v, e, k)
      go (err x, v) e k = absurd (cc)

  -- An effect that fails has failed in its first part, or after it.
  pub bind-eq-err :
      {x : Failure} {u : W}
      → (m >>= f) w ≡ (err x, u)
      → (m w ≡ (err x, u)) ⊎ ((a : A) × (v : W) × (m w ≡ (ok a, v)) × (f a v ≡ (err x, u)))
  bind-eq-err {x} {u} h = go (m w) refl h
    where
      go :
          (r : Result A × W)
          → m w ≡ r
          → continue r.0 r.1 f ≡ (err x, u)
          → (m w ≡ (err x, u)) ⊎ ((a : A) × (v : W) × (m w ≡ (ok a, v)) × (f a v ≡ (err x, u)))
      go (ok a, v) e k = inr (a, v, e, k)
      go (err y, v) e k = inl (e ∙ both (ground arith) (ground arith))

module _ {W A B : Type 0} (r : Result A) (f : A → Effect W B) (w : W) where
  pub lift-bind-eq-ok :
      {b : B} {u : W} → (lift r >>= f) w ≡ (ok b, u) → (a : A) × (r ≡ ok a) × (f a w ≡ (ok b, u))
  lift-bind-eq-ok {b} {u} h = go r refl h
    where
      go :
          (s : Result A)
          → r ≡ s
          → continue s w f ≡ (ok b, u)
          → (a : A) × (r ≡ ok a) × (f a w ≡ (ok b, u))
      go (ok a) e k = (a, e, k)
      go (err x) e k = absurd (cc)
