-- ===== src/Prelude/Splits.antt =====
-- Texts cut apart at a separator, as `strings.Split`, `SplitN`, `Cut` and `Join` do.
use Prim.Native.Nat.{ℕ}
use mathlib.Core.Path.{◌≡◌, refl, ap, ◌∙◌}
use mathlib.Core.Logic.{◌≢◌, inl, inr}
use mathlib.Core.Bool.{Bool, true, false}
use mathlib.Core.List.{List, [], ◌∷◌, ◌++◌}
use mathlib.Core.Option.{Option, none, some}
use native.Mathlib.Omega.{arith}
use version_aware_code_mcp.Prelude.Tests.{if◌then◌else◌, ◌==◌, Bool-cases}
use version_aware_code_mcp.Prelude.Lists.{All, any}
use version_aware_code_mcp.Prelude.Texts.{Text, has_prefix, after_prefix}

-- A character put in front of the first part.
abbrev pub push_front : ℕ → List Text → List Text
push_front c [] = (c ∷ []) ∷ []
push_front c (p ∷ ps) = (c ∷ p) ∷ ps

-- `strings.Split(s, sep)` for a separator of one character.
unfoldable pub split_on : ℕ → Text → List Text
split_on sep [] = [] ∷ []
split_on sep (c ∷ s) =
    let rest = split_on sep s in if c == sep then [] ∷ rest else push_front c rest

-- `strings.Join(parts, sep)`
unfoldable pub join_on : ℕ → List Text → Text
join_on sep [] = []
join_on sep (p ∷ []) = p
join_on sep (p ∷ q ∷ rest) = p ++ (sep ∷ join_on sep (q ∷ rest))

abbrev pub Lacks : ℕ → Text → Type 0
Lacks sep s = All (λ c. c ≢ sep) s

-- `strings.Cut(s, sep)`, with the part before the separator and the part after it.
abbrev pub put_before : ℕ → Option (Text × Text) → Option (Text × Text)
put_before c none = none
put_before c (some (before, after)) = some (c ∷ before, after)

abbrev pub cut_or : ℕ → Option Text → Option (Text × Text) → Option (Text × Text)
cut_or c (some after) later = some ([], after)
cut_or c none later = put_before c later

unfoldable pub cut : Text → Text → Option (Text × Text)
unfolding after_prefix
cut sep [] = none
cut sep (c ∷ s) = cut_or c (after_prefix (c ∷ s) sep) (cut sep s)

-- `strings.Contains(s, part)`
unfoldable pub contains : Text → Text → Bool
unfolding has_prefix
contains part [] = has_prefix [] part
contains part (c ∷ s) = let rest = contains part s in if has_prefix (c ∷ s) part then true else rest

All-push_front :
    (sep c : ℕ) (ps : List Text) → c ≢ sep → All (Lacks sep) ps → All (Lacks sep) (push_front c ps)
All-push_front sep c [] n h = ((n, tt), tt)
All-push_front sep c (p ∷ ps) n h = ((n, h.0), h.1)

-- No part of a split holds the separator.
pub split_on-Lacks : (sep : ℕ) (s : Text) → All (Lacks sep) (split_on sep s)
unfolding split_on
split_on-Lacks sep [] = (tt, tt)
split_on-Lacks sep (c ∷ s) = elim (Bool-cases (c == sep)) [
  | inl e ↦ rw e (tt, split_on-Lacks sep s)
  | inr e ↦ rw e (All-push_front sep c (split_on sep s) (ground arith) (split_on-Lacks sep s))
]

split_on-some : (sep : ℕ) (s : Text) → (p : Text) × (ps : List Text) × (split_on sep s ≡ p ∷ ps)
unfolding split_on
split_on-some sep [] = ([], [], refl)
split_on-some sep (c ∷ s) =
    let (p, ps, h) = split_on-some sep s in
    elim (Bool-cases (c == sep)) [
      | inl e ↦ rw e ([], split_on sep s, refl)
      | inr e ↦ rw (e, h) (c ∷ p, ps, refl)
    ]

-- The text in front of a separator is the first part.
pub split_on-append :
    (sep : ℕ) (p s : Text) → Lacks sep p → split_on sep (p ++ (sep ∷ s)) ≡ p ∷ split_on sep s
unfolding split_on
split_on-append sep [] s h = ground arith
split_on-append sep (c ∷ p) s h = ground (arith, split_on-append sep p s h.1)

pub split_on_lone : (sep : ℕ) (p : Text) → Lacks sep p → split_on sep p ≡ p ∷ []
unfolding split_on
split_on_lone sep [] h = refl
split_on_lone sep (c ∷ p) h = ground (arith, split_on_lone sep p h.1)

-- Splitting what was joined gives the parts back, if there is a part and none holds the separator.
pub split_on-join_on :
    (sep : ℕ) (ps : List Text) → ps ≢ [] → All (Lacks sep) ps → split_on sep (join_on sep ps) ≡ ps
unfolding join_on
split_on-join_on sep [] n h = absurd (n refl)
split_on-join_on sep (p ∷ []) n h = split_on_lone sep p h.0
split_on-join_on sep (p ∷ q ∷ rest) n h =
    split_on-append sep p (join_on sep (q ∷ rest)) h.0
    ∙ ap (λ x. p ∷ x) (split_on-join_on sep (q ∷ rest) (λ e. cc) h.1)

Lacks-any : (sep : ℕ) (s : Text) → any (λ c. c == sep) s ≡ false → Lacks sep s
Lacks-any sep [] h = tt
Lacks-any sep (c ∷ s) h = elim (Bool-cases (c == sep)) [
  | inl e ↦ absurd (cc (rw e at h))
  | inr e ↦ (ground arith, Lacks-any sep s (rw e at h))
]

-- That texts lack a character, by a test.
pub All-Lacks :
    (sep : ℕ) (ts : List Text) → any (λ t. any (λ c. c == sep) t) ts ≡ false → All (Lacks sep) ts
All-Lacks sep [] h = tt
All-Lacks sep (t ∷ ts) h = elim (Bool-cases (any (λ c. c == sep) t)) [
  | inl e ↦ absurd (cc (rw e at h))
  | inr e ↦ (Lacks-any sep t e, All-Lacks sep ts (rw e at h))
]
