-- ===== src/Store/Names.antt =====
-- A name that passes is one path element.
use version_aware_code_mcp.Prelude.{
  ℕ, Text, [], ◌∷◌, true, ◌≡◌, ◌≢◌, ◌≤◌, refl, arith, In, All, All-In, length, ltb, Bool-cases, inl,
  inr,
}
use version_aware_code_mcp.Effect.{ok}
use version_aware_code_mcp.Store.{
  is_alphanumeric, is_name_character, all_name_characters, matches_pattern, max_name_length,
  validate_name,
}

-- Safe to join to a directory, and to hand to git: no separator and no NUL, not a directory's
-- own name or its parent's, no leading dash, and short.
pub record IsPathElement (name : Text) : Type 0 where
  pub some_character : name ≢ []
  pub no_slash : ¬ In 47 name
  pub no_backslash : ¬ In 92 name
  pub no_nul : ¬ In 0 name
  pub no_leading_dot : (rest : Text) → name ≢ 46 ∷ rest
  pub no_leading_dash : (rest : Text) → name ≢ 45 ∷ rest
  pub short : length name ≤ max_name_length

abbrev IsPlain : ℕ → Type 0
IsPlain c = (c ≢ 47) × (c ≢ 92) × (c ≢ 0)

name_character-IsPlain : (c : ℕ) → is_name_character c ≡ true → IsPlain c
unfolding is_name_character is_alphanumeric
name_character-IsPlain c h = ground arith

all_name_characters-IsPlain : (s : Text) → all_name_characters s ≡ true → All IsPlain s
unfolding all_name_characters
all_name_characters-IsPlain [] h = tt
all_name_characters-IsPlain (c ∷ s) h =
    (name_character-IsPlain c (ground arith), all_name_characters-IsPlain s (ground arith))

first-IsPlain : (c : ℕ) → is_alphanumeric c ≡ true → IsPlain c × (c ≢ 46) × (c ≢ 45)
unfolding is_alphanumeric
first-IsPlain c h = ground arith

matches_pattern-IsPathElement :
    (name : Text) → length name ≤ max_name_length → matches_pattern name ≡ true → IsPathElement name
unfolding matches_pattern
matches_pattern-IsPathElement [] l h = absurd (cc)
matches_pattern-IsPathElement (c ∷ s) l h =
    let (plain, dot, dash) = first-IsPlain c (ground arith) in
    let all : All IsPlain (c ∷ s) = (plain, all_name_characters-IsPlain s (ground arith)) in
    record {
      some_character = λ e. cc;
      no_slash = λ i. (All-In IsPlain (c ∷ s) all i).0 refl;
      no_backslash = λ i. (All-In IsPlain (c ∷ s) all i).1 refl;
      no_nul = λ i. (All-In IsPlain (c ∷ s) all i).2 refl;
      no_leading_dot = λ rest e. dot (ground arith);
      no_leading_dash = λ rest e. dash (ground arith);
      short = l;
    }

-- A name that is accepted is a single safe path element, whichever kind it names.
pub validate_name-IsPathElement :
    (kind name : Text) → validate_name kind name ≡ ok tt → IsPathElement name
unfolding validate_name
validate_name-IsPathElement kind name h = elim (Bool-cases (ltb max_name_length (length name))) [
  | inl e ↦ absurd (cc (rw e at h))
  | inr e ↦ elim (Bool-cases (matches_pattern name)) [
    | inl m ↦ matches_pattern-IsPathElement name (ground arith) m
    | inr m ↦ absurd (cc (rw (e, m) at h))
  ]
]
