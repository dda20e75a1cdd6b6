-- ===== src/GitSource/Paths/Inside.antt =====
-- An accepted path stays inside the repository.
use version_aware_code_mcp.Prelude.{
  ℕ, zero, suc, Text, List, [], ◌∷◌, ◌++◌, reverse, Bool, true, false, ◌≡◌, ◌≢◌, ◌⊎◌, inl, inr,
  refl, sym, subst, ◌∙◌, arith, codes, is_blank, text_eq, text_eq_iff, has_prefix, split_on,
  join_on, Lacks, split_on-Lacks, All, Bool-cases,
}
use mathlib.Core.List.{reverse_aux}
use version_aware_code_mcp.Effect.{ok}
use version_aware_code_mcp.GitSource.Paths.{
  slash, dot_dot, Cleaned, go_up, clean_step, clean_parts, repeated, written_parts, or_dot, is_abs,
  nothing_cleaned, clean, refuse_outside, validate_path,
}

-- A name of an entry below a directory.
pub record IsName (s : Text) : Type 0 where
  pub some_character : s ≢ []
  pub no_slash : Lacks slash s
  pub no_dot : s ≢ codes "."
  pub no_dot_dot : s ≢ dot_dot

-- The repository's root, or names below it.
abbrev pub IsInside : Text → Type 0
IsInside path =
    (path ≡ codes ".")
    ⊎ ((names : List Text) × (names ≢ []) × All IsName names × (path ≡ join_on slash names))

clean_step-names :
    (rooted : Bool) (c : Cleaned) (part : Text)
    → Lacks slash part
    → All IsName c.names
    → All IsName (clean_step rooted c part).names
unfolding clean_step
clean_step-names rooted c part l h = elim (Bool-cases (text_eq part [])) [
  | inl e ↦ rw e h
  | inr e ↦ elim (Bool-cases (text_eq part (codes "."))) [
    | inl d ↦ rw (e, d) h
    | inr d ↦ elim (Bool-cases (text_eq part dot_dot)) [
      | inl u ↦ rw (e, d, u) (up rooted c.ups c.names h)
      | inr u ↦
          rw (e, d, u)
            (
              record {
                some_character = λ q. cc (sym e ∙ (text_eq_iff part []).1 q);
                no_slash = l;
                no_dot = λ q. cc (sym d ∙ (text_eq_iff part (codes ".")).1 q);
                no_dot_dot = λ q. cc (sym u ∙ (text_eq_iff part dot_dot).1 q);
              },
              h,
            )
    ]
  ]
]
  where
    up :
        (rooted : Bool) (ups : ℕ) (names : List Text)
        → All IsName names
        → All IsName (go_up rooted ups names).names
    up rooted ups (n ∷ names) h = h.1
    up true ups [] h = tt
    up false ups [] h = tt

clean_parts-names :
    (rooted : Bool) (c : Cleaned) (parts : List Text)
    → All (Lacks slash) parts
    → All IsName c.names
    → All IsName (clean_parts rooted c parts).names
unfolding clean_parts
clean_parts-names rooted c [] l h = h
clean_parts-names rooted c (part ∷ parts) l h =
    clean_parts-names rooted (clean_step rooted c part) parts l.1
      (clean_step-names rooted c part l.0 h)

All-reverse_aux :
    {A : Type 0} (P : A → Type 0) (xs r : List A) → All P xs → All P r → All P (reverse_aux xs r)
All-reverse_aux P [] r h k = k
All-reverse_aux P (x ∷ xs) r h k = All-reverse_aux P xs (x ∷ r) h.1 (h.0, k)

-- The text of one or more names is not empty.
or_dot-names :
    (n : Text) (ns : List Text) → n ≢ [] → or_dot (join_on slash (n ∷ ns)) ≡ join_on slash (n ∷ ns)
unfolding join_on
or_dot-names [] ns h = absurd (h refl)
or_dot-names (c ∷ n) [] h = refl
or_dot-names (c ∷ n) (m ∷ ns) h = refl

names-IsInside : (ns : List Text) → All IsName ns → IsInside (or_dot (join_on slash ns))
unfolding join_on
names-IsInside [] h = inl refl
names-IsInside (n ∷ ns) h = inr (n ∷ ns, λ e. cc, h, or_dot-names n ns h.0.some_character)

refuse_up :
    (path : Text) (rest : List Text) (out : Text)
    → refuse_outside path (or_dot (join_on slash (dot_dot ∷ rest))) ≡ ok out
    → ⊥
unfolding join_on has_prefix text_eq
refuse_up path [] out h = cc h
refuse_up path (q ∷ rest) out h = cc h

refuse_abs : (path s out : Text) → refuse_outside path (slash ∷ s) ≡ ok out → ⊥
unfolding has_prefix
refuse_abs path s out h = cc h

refuse_outside-ok : (path s out : Text) → refuse_outside path s ≡ ok out → s ≡ out
refuse_outside-ok path s out h = ground arith

relative-IsInside :
    (path out : Text) (c : Cleaned)
    → All IsName c.names
    → refuse_outside path (or_dot (join_on slash (written_parts c))) ≡ ok out
    → IsInside out
relative-IsInside path out c h k = go c.ups k
  where
    go :
        (n : ℕ)
        → refuse_outside path (or_dot (join_on slash (repeated n dot_dot ++ reverse c.names)))
          ≡ ok out
        → IsInside out
    go zero k =
        subst IsInside (refuse_outside-ok path _ out k)
          (names-IsInside (reverse c.names) (All-reverse_aux IsName c.names [] h tt))
    go (suc n) k = absurd (refuse_up path (repeated n dot_dot ++ reverse c.names) out k)

-- A path that is accepted names the repository's root or an entry below it: it is made of names
-- joined by slashes, none of them empty, "." or "..".
pub validate_path-IsInside : (path out : Text) → validate_path path ≡ ok out → IsInside out
unfolding validate_path
validate_path-IsInside path out h = elim (Bool-cases (is_blank path)) [
  | inl blank ↦ absurd (cc (rw blank at h))
  | inr some ↦
      let k : refuse_outside path (clean path) ≡ ok out = rw some at h in
      elim (Bool-cases (is_abs path)) [
        | inl rooted ↦ absurd (
            refuse_abs path
              (join_on slash
                (written_parts (clean_parts true nothing_cleaned (split_on slash path))))
              out (rw rooted at k))
        | inr relative ↦
            relative-IsInside path out (clean_parts false nothing_cleaned (split_on slash path))
              (clean_parts-names false nothing_cleaned (split_on slash path)
                (split_on-Lacks slash path) tt)
              (rw relative at k)
      ]
]
