-- ===== src/GitSource/Reading/Lines.antt =====
-- The lines that a text is cut into.
use version_aware_code_mcp.Prelude.{
  ℕ, Text, List, [], ◌∷◌, ◌++◌, ◌≡◌, ◌≢◌, ◌⊎◌, inl, inr, refl, ap, subst, ◌∙◌, arith, flatten, ◌==◌,
  Lacks, push_front, Bool-cases,
}
use version_aware_code_mcp.GitSource.Reading.{newline, split_after, drop_empty_last, split_lines}

-- A line with its newline, its only one.
abbrev pub IsEnded : Text → Type 0
IsEnded l = (body : Text) × Lacks newline body × (l ≡ body ++ newline ∷ [])

-- The lines of a text: each ends in its only newline, but the last one may have none.
abbrev pub IsLines : List Text → Type 0
IsLines [] = Unit
IsLines (l ∷ []) = (l ≢ []) × (IsEnded l ⊎ Lacks newline l)
IsLines (l ∷ m ∷ rest) = IsEnded l × IsLines (m ∷ rest)

abbrev IsSplit : List Text → Type 0
IsSplit [] = Unit × ⊥
IsSplit (l ∷ []) = Lacks newline l
IsSplit (l ∷ m ∷ rest) = IsEnded l × IsSplit (m ∷ rest)

push_front-IsSplit : (c : ℕ) (ls : List Text) → c ≢ newline → IsSplit ls → IsSplit (push_front c ls)
push_front-IsSplit c [] n h = absurd h.1
push_front-IsSplit c (l ∷ []) n h = (n, h)
push_front-IsSplit c (l ∷ m ∷ rest) n ((body, k, e), h) = ((c ∷ body, (n, k), ap (λ x. c ∷ x) e), h)

newline-IsSplit : (ls : List Text) → IsSplit ls → IsSplit ((newline ∷ []) ∷ ls)
newline-IsSplit [] h = absurd h.1
newline-IsSplit (l ∷ ls) h = (([], tt, refl), h)

split_after-IsSplit : (s : Text) → IsSplit (split_after s)
unfolding split_after
split_after-IsSplit [] = tt
split_after-IsSplit (c ∷ s) = elim (Bool-cases (c == newline)) [
  | inl e ↦
      let q : newline ≡ c = ground arith in
      rw e (
        subst (λ x. IsSplit ((x ∷ []) ∷ split_after s)) q
          (newline-IsSplit (split_after s) (split_after-IsSplit s)))
  | inr e ↦ rw e (push_front-IsSplit c (split_after s) (ground arith) (split_after-IsSplit s))
]

flatten-push_front : (c : ℕ) (ls : List Text) → flatten (push_front c ls) ≡ c ∷ flatten ls
flatten-push_front c [] = refl
flatten-push_front c (l ∷ ls) = refl

flatten-split_after : (s : Text) → flatten (split_after s) ≡ s
unfolding split_after
flatten-split_after [] = refl
flatten-split_after (c ∷ s) = elim (Bool-cases (c == newline)) [
  | inl e ↦ rw e (ap (λ x. c ∷ x) (flatten-split_after s))
  | inr e ↦ rw e (flatten-push_front c (split_after s) ∙ ap (λ x. c ∷ x) (flatten-split_after s))
]

flatten-drop_empty_last : (ls : List Text) → flatten (drop_empty_last ls) ≡ flatten ls
unfolding drop_empty_last
flatten-drop_empty_last [] = refl
flatten-drop_empty_last ([] ∷ []) = refl
flatten-drop_empty_last ((c ∷ l) ∷ []) = refl
flatten-drop_empty_last (l ∷ m ∷ rest) = ap (λ x. l ++ x) (flatten-drop_empty_last (m ∷ rest))

IsEnded-some : (l : Text) → IsEnded l → l ≢ []
IsEnded-some [] ([], k, e) q = cc
IsEnded-some [] (c ∷ body, k, e) q = cc
IsEnded-some (c ∷ l) h q = cc

cons-IsLines : (l : Text) (ls : List Text) → IsEnded l → IsLines ls → IsLines (l ∷ ls)
cons-IsLines l [] e h = (IsEnded-some l e, inl e)
cons-IsLines l (m ∷ ls) e h = (e, h)

drop_empty_last-IsLines : (ls : List Text) → IsSplit ls → IsLines (drop_empty_last ls)
unfolding drop_empty_last
drop_empty_last-IsLines [] h = absurd h.1
drop_empty_last-IsLines ([] ∷ []) h = tt
drop_empty_last-IsLines ((c ∷ l) ∷ []) h = (λ e. cc, inr h)
drop_empty_last-IsLines (l ∷ m ∷ rest) h =
    cons-IsLines l (drop_empty_last (m ∷ rest)) h.0 (drop_empty_last-IsLines (m ∷ rest) h.1)

pub flatten-split_lines : (s : Text) → flatten (split_lines s) ≡ s
unfolding split_lines
flatten-split_lines s = flatten-drop_empty_last (split_after s) ∙ flatten-split_after s

pub split_lines-IsLines : (s : Text) → IsLines (split_lines s)
unfolding split_lines
split_lines-IsLines s = drop_empty_last-IsLines (split_after s) (split_after-IsSplit s)
