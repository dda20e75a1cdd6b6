-- ===== src/Cbm/Tracing/Hops.antt =====
-- The hops of a walk are the shortest distances that CBM reported.
use version_aware_code_mcp.Prelude.{
  Text, ℤ, ◌≤ℤ◌, ltb_ℤ, List, [], ◌∷◌, ◌++◌, Option, none, some, true, false, ◌≡◌, ◌≢◌, inl, inr,
  refl, sym, subst, ◌∙◌, arith, text_eq, text_eq_iff, text_eq_refl, Bool-cases, All, All-map,
  All-append, In, In-append_left, In-append_right, append_assoc, append-nil,
}
use version_aware_code_mcp.Config.{lookup}
use version_aware_code_mcp.Cbm.Tracing.{set_hop, reach, hops_from}

text_eq-false : (s t : Text) → text_eq s t ≡ false → s ≢ t
text_eq-false s t h p = cc ((text_eq_iff s t).1 p)

text_neq : (s t : Text) → s ≢ t → text_eq s t ≡ false
text_neq s t n = elim (Bool-cases (text_eq s t)) [
  | inl e ↦ absurd (n ((text_eq_iff s t).0 e))
  | inr e ↦ e
]

pub lookup-set_hop_self :
    (key : Text) (v : ℤ) (m : List (Text × ℤ)) → lookup key (set_hop key v m) ≡ some v
unfolding lookup set_hop
lookup-set_hop_self key v [] = rw (text_eq_refl key) refl
lookup-set_hop_self key v ((n, h) ∷ rest) = elim (Bool-cases (text_eq n key)) [
  | inl e ↦ rw (e, e) refl
  | inr e ↦ rw (e, e) (lookup-set_hop_self key v rest)
]

pub lookup-set_hop_other :
    (key k : Text) (v : ℤ) (m : List (Text × ℤ))
    → k ≢ key
    → lookup key (set_hop k v m) ≡ lookup key m
unfolding lookup set_hop
lookup-set_hop_other key k v [] n = rw (text_neq k key n) refl
lookup-set_hop_other key k v ((m, h) ∷ rest) n = elim (Bool-cases (text_eq m k)) [
  | inl e ↦
      let apart : text_eq m key ≡ false =
        text_neq m key (λ p. n (sym ((text_eq_iff m k).0 e) ∙ p)) in
      rw (e, apart) refl
  | inr e ↦ rw e (elim (Bool-cases (text_eq m key)) [
    | inl f ↦ rw f refl
    | inr f ↦ rw f (lookup-set_hop_other key k v rest n)
  ])
]

-- `o` is the least hop among the cells of a name, if it has one.
pub IsShortest : Text → List (Text × ℤ) → Option ℤ → Type 0
IsShortest name cells none = All (λ c. c.0 ≢ name) cells
IsShortest name cells (some h) = In (name, h) cells × All (λ c. c.0 ≡ name → h ≤ℤ c.1) cells

module _ (name : Text) (cells : List (Text × ℤ)) where
  IsShortest-apart :
      (n : Text) (h : ℤ) (o : Option ℤ)
      → n ≢ name
      → IsShortest name cells o
      → IsShortest name (cells ++ (n, h) ∷ []) o
  unfolding IsShortest
  IsShortest-apart n h none a s = All-append (λ c. c.0 ≢ name) cells ((n, h) ∷ []) s (a, tt)
  IsShortest-apart n h (some g) a s = (
    In-append_left (name, g) cells ((n, h) ∷ []) s.0,
    All-append (λ c. c.0 ≡ name → g ≤ℤ c.1) cells ((n, h) ∷ []) s.1 ((λ p. absurd (a p)), tt),
  )

  -- A shorter way, or the first one.
  IsShortest-new :
      (h : ℤ)
      → All (λ c. c.0 ≡ name → h ≤ℤ c.1) cells
      → IsShortest name (cells ++ (name, h) ∷ []) (some h)
  unfolding IsShortest
  IsShortest-new h a = (
    In-append_right (name, h) cells ((name, h) ∷ []) (inl refl),
    All-append (λ c. c.0 ≡ name → h ≤ℤ c.1) cells ((name, h) ∷ []) a ((λ p. omega arith), tt),
  )

  reach-IsShortest_self :
      (h : ℤ) (hops : List (Text × ℤ)) (o : Option ℤ)
      → lookup name hops ≡ o
      → IsShortest name cells o
      → IsShortest name (cells ++ (name, h) ∷ []) (lookup name (reach name h hops o))
  unfolding IsShortest
  reach-IsShortest_self h hops none e s =
      subst (IsShortest name (cells ++ (name, h) ∷ [])) (sym (lookup-set_hop_self name h hops)) (
        IsShortest-new h
          (All-map (λ c. c.0 ≢ name) (λ c. c.0 ≡ name → h ≤ℤ c.1) cells (λ c n p. absurd (n p)) s))
  reach-IsShortest_self h hops (some seen) e s = elim (Bool-cases (ltb_ℤ h seen)) [
    | inl shorter ↦ rw shorter (
        subst (IsShortest name (cells ++ (name, h) ∷ [])) (sym (lookup-set_hop_self name h hops)) (
          IsShortest-new h (
            All-map (λ c. c.0 ≡ name → seen ≤ℤ c.1) (λ c. c.0 ≡ name → h ≤ℤ c.1) cells
              (λ c f p. omega (arith, f p, below h seen shorter)) s.1)))
    | inr longer ↦ rw longer (
        subst (IsShortest name (cells ++ (name, h) ∷ [])) (sym e) (
          In-append_left (name, seen) cells ((name, h) ∷ []) s.0,
          All-append (λ c. c.0 ≡ name → seen ≤ℤ c.1) cells ((name, h) ∷ []) s.1
              ((λ p. ground (arith, longer)), tt),
        ))
  ]
    where
      below : (a b : ℤ) → ltb_ℤ a b ≡ true → a ≤ℤ b
      below a b k = ground arith

  reach-IsShortest :
      (n : Text) (h : ℤ) (hops : List (Text × ℤ))
      → IsShortest name cells (lookup name hops)
      → IsShortest name (cells ++ (n, h) ∷ []) (lookup name (reach n h hops (lookup n hops)))
  reach-IsShortest n h hops s = elim (Bool-cases (text_eq n name)) [
    | inl e ↦
        let p : n ≡ name = (text_eq_iff n name).0 e in
        subst
          (λ m.
            IsShortest name (cells ++ (m, h) ∷ []) (lookup name (reach m h hops (lookup m hops))))
          (sym p) (reach-IsShortest_self h hops (lookup name hops) refl s)
    | inr e ↦
        let a = text_eq-false n name e in
        subst (IsShortest name (cells ++ (n, h) ∷ [])) (sym (kept a (lookup n hops)))
          (IsShortest-apart n h (lookup name hops) a s)
  ]
    where
      kept : n ≢ name → (o : Option ℤ) → lookup name (reach n h hops o) ≡ lookup name hops
      kept a none = lookup-set_hop_other name n h hops a
      kept a (some seen) = elim (Bool-cases (ltb_ℤ h seen)) [
        | inl e ↦ rw e (lookup-set_hop_other name n h hops a)
        | inr e ↦ rw e refl
      ]

hops_from-IsShortest_after :
    (name : Text) (seen hops cells : List (Text × ℤ))
    → IsShortest name seen (lookup name hops)
    → IsShortest name (seen ++ cells) (lookup name (hops_from hops cells))
unfolding hops_from
hops_from-IsShortest_after name seen hops [] s = rw (append-nil seen) s
hops_from-IsShortest_after name seen hops ((n, h) ∷ cells) s =
    subst
      (λ all. IsShortest name all (lookup name (hops_from (reach n h hops (lookup n hops)) cells)))
      (append_assoc seen ((n, h) ∷ []) cells)
      (hops_from-IsShortest_after name (seen ++ (n, h) ∷ []) (reach n h hops (lookup n hops)) cells
        (reach-IsShortest name seen n h hops s))

-- The hop that a walk gives a name is the least that any of its rows has, and a name has none
-- exactly if no row has it.
pub hops_from-IsShortest :
    (name : Text) (cells : List (Text × ℤ))
    → IsShortest name cells (lookup name (hops_from [] cells))
unfolding IsShortest lookup
hops_from-IsShortest name cells = hops_from-IsShortest_after name [] [] cells tt
