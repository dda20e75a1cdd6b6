-- ===== src/Zoekt/Group.antt =====
-- What the check of a query's parentheses accepts, as a grammar. How Zoekt reads quoted strings is
-- its own; the check, like the grammar, gives quotes no meaning.
use version_aware_code_mcp.Prelude.{
  ℕ, zero, suc, Text, [], ◌∷◌, ◌++◌, Bool, true, false, ◌≡◌, ◌≢◌, ◌↔◌, ◌⊎◌, inl, inr, refl, sym, ap,
  subst, ◌∙◌, arith, codes, append_assoc, append-nil,
}
use version_aware_code_mcp.Zoekt.{
  escape, opens, closes, plain, kind, closed, balanced_from, balanced,
}

-- The texts in which every parenthesis is closed: a backslash (92) stands before any one character,
-- an opening parenthesis (40) and a closing one (41) stand around such a text, and the other
-- characters stand for themselves.
pub data IsBalanced : Text → Type 0 where
  empty : IsBalanced []
  escaped : {c : ℕ} {rest : Text} → IsBalanced rest → IsBalanced (92 ∷ c ∷ rest)
  grouped :
      {inner rest : Text}
      → IsBalanced inner
      → IsBalanced rest
      → IsBalanced (40 ∷ (inner ++ (41 ∷ rest)))
  other : {c : ℕ} {rest : Text} → c ≢ 92 → c ≢ 40 → c ≢ 41 → IsBalanced rest → IsBalanced (c ∷ rest)

-- A text that closes the `depth` groups it stands in, each behind a text of its own.
IsClosing : ℕ → Text → Type 0
IsClosing zero q = IsBalanced q
IsClosing (suc depth) q =
    (inner : Text) × (rest : Text) × (q ≡ inner ++ (41 ∷ rest))
    × IsBalanced inner
    × IsClosing depth rest

-- What a group's text may begin with, a closing text may begin with.
IsClosing-after :
    (front : Text)
    → ((rest : Text) → IsBalanced rest → IsBalanced (front ++ rest))
    → (depth : ℕ) (q : Text) → IsClosing depth q
    → IsClosing depth (front ++ q)
unfolding IsClosing
IsClosing-after front f zero q b = f q b
IsClosing-after front f (suc depth) q (inner, rest, same, b, closing) = (
  front ++ inner,
  rest,
  ap (λ x. front ++ x) same ∙ sym (append_assoc front inner (41 ∷ rest)),
  f inner b,
  closing,
)

-- The four cases of a character.
kind-cases :
    (c : ℕ)
    → ((kind c ≡ escape) × (c ≡ 92))
      ⊎ ((kind c ≡ opens) × (c ≡ 40))
      ⊎ ((kind c ≡ closes) × (c ≡ 41))
      ⊎ ((kind c ≡ plain) × (c ≢ 92) × (c ≢ 40) × (c ≢ 41))
unfolding kind
kind-cases c = ground arith

grouped-front :
    (inner : Text)
    → IsBalanced inner
    → (rest : Text) → IsBalanced rest
    → IsBalanced ((40 ∷ (inner ++ (41 ∷ []))) ++ rest)
grouped-front inner b rest c =
    subst (λ x. IsBalanced (40 ∷ x)) (sym (append_assoc inner (41 ∷ []) rest))
      (IsBalanced.grouped b c)

-- An opening parenthesis in front of what closes one group more.
IsClosing-opened : (depth : ℕ) (q : Text) → IsClosing (suc depth) q → IsClosing depth (40 ∷ q)
unfolding IsClosing
IsClosing-opened depth q (inner, rest, same, b, closing) =
    subst (IsClosing depth) (ap (λ x. 40 ∷ x) (append_assoc inner (41 ∷ []) rest ∙ sym same))
      (IsClosing-after (40 ∷ (inner ++ (41 ∷ []))) (grouped-front inner b) depth rest closing)

closes→IsClosing :
    (depth : ℕ) (q : Text)
    → ((d : ℕ) → balanced_from false d q ≡ true → IsClosing d (q ++ codes " "))
    → closed depth (λ d. balanced_from false d q) ≡ true
    → IsClosing depth (41 ∷ (q ++ codes " "))
unfolding IsClosing
closes→IsClosing zero q f h = absurd (ground arith)
closes→IsClosing (suc d) q f h = ([], q ++ codes " ", refl, IsBalanced.empty, f d h)

-- The text that is left, with the blank that stands behind a query in its group, which a last
-- backslash escapes.
after_skip : Bool → Text → Text
after_skip true q = 92 ∷ (q ++ codes " ")
after_skip false q = q ++ codes " "

balanced_from→IsClosing :
    (skip : Bool) (depth : ℕ) (q : Text)
    → balanced_from skip depth q ≡ true
    → IsClosing depth (after_skip skip q)
unfolding balanced_from IsClosing after_skip
balanced_from→IsClosing true zero [] h = IsBalanced.escaped IsBalanced.empty
balanced_from→IsClosing false zero [] h =
    IsBalanced.other (ground arith) (ground arith) (ground arith) IsBalanced.empty
balanced_from→IsClosing true (suc depth) [] h = absurd (ground arith)
balanced_from→IsClosing false (suc depth) [] h = absurd (ground arith)
balanced_from→IsClosing true depth (c ∷ q) h =
    IsClosing-after (92 ∷ c ∷ []) (λ rest b. IsBalanced.escaped b) depth (q ++ codes " ")
      (balanced_from→IsClosing false depth q h)
balanced_from→IsClosing false depth (c ∷ q) h = elim (kind-cases c) [
  | inl (e, same) ↦
      subst (λ x. IsClosing depth (x ∷ (q ++ codes " "))) (sym same)
        (balanced_from→IsClosing true depth q (rw (e, balanced_from) at h))
  | inr (inl (e, same)) ↦
      subst (λ x. IsClosing depth (x ∷ (q ++ codes " "))) (sym same)
        (IsClosing-opened depth (q ++ codes " ")
          (balanced_from→IsClosing false (suc depth) q (rw (e, balanced_from) at h)))
  | inr (inr (inl (e, same))) ↦
      subst (λ x. IsClosing depth (x ∷ (q ++ codes " "))) (sym same)
        (closes→IsClosing depth q (λ d. balanced_from→IsClosing false d q)
          (rw (e, balanced_from) at h))
  | inr (inr (inr (e, a, b, f))) ↦
      IsClosing-after (c ∷ []) (λ rest k. IsBalanced.other a b f k) depth (q ++ codes " ")
        (balanced_from→IsClosing false depth q (rw (e, balanced_from) at h))
]

-- A balanced text in front of another changes nothing of what the loop says of that one.
IsBalanced→balanced_from :
    {x : Text}
    → IsBalanced x
    → (depth : ℕ) (rest : Text)
    → balanced_from false depth (x ++ rest) ≡ balanced_from false depth rest
unfolding balanced_from kind
IsBalanced→balanced_from IsBalanced.empty depth rest = refl
IsBalanced→balanced_from (IsBalanced.escaped b) depth rest = IsBalanced→balanced_from b depth rest
IsBalanced→balanced_from (IsBalanced.grouped {inner = inner} {rest = after} b k) depth rest =
    ap (balanced_from false (suc depth)) (append_assoc inner (41 ∷ after) rest)
    ∙ IsBalanced→balanced_from b (suc depth) (41 ∷ (after ++ rest))
    ∙ IsBalanced→balanced_from k depth rest
IsBalanced→balanced_from (IsBalanced.other {c = c} {rest = after} a b f k) depth rest =
    elim (kind-cases c) [
      | inl (e, same) ↦ absurd (a same)
      | inr (inl (e, same)) ↦ absurd (b same)
      | inr (inr (inl (e, same))) ↦ absurd (f same)
      | inr (inr (inr (e, n, o, m))) ↦ rw (e, balanced_from) (IsBalanced→balanced_from k depth rest)
    ]

closed-eq : (depth : ℕ) (f k : ℕ → Bool) → ((d : ℕ) → f d ≡ k d) → closed depth f ≡ closed depth k
closed-eq zero f k same = refl
closed-eq (suc d) f k same = same d

balanced_from-blank :
    (skip : Bool) (depth : ℕ) (q : Text)
    → balanced_from skip depth (q ++ codes " ") ≡ balanced_from skip depth q
unfolding balanced_from kind
balanced_from-blank true depth [] = refl
balanced_from-blank false depth [] = refl
balanced_from-blank true depth (c ∷ q) = balanced_from-blank false depth q
balanced_from-blank false depth (c ∷ q) = elim (kind-cases c) [
  | inl (e, n) ↦ rw (e, balanced_from) (balanced_from-blank true depth q)
  | inr (inl (e, n)) ↦ rw (e, balanced_from) (balanced_from-blank false (suc depth) q)
  | inr (inr (inl (e, n))) ↦
      rw (e, balanced_from) (closed-eq depth _ _ (λ d. balanced_from-blank false d q))
  | inr (inr (inr (e, n, o, m))) ↦ rw (e, balanced_from) (balanced_from-blank false depth q)
]

-- A query passes exactly if, with the blank that the adapter puts behind it, it is a text of the
-- grammar: a backslash stands before any one character, and every other parenthesis opens or closes a
-- group that is closed within the text.
pub balanced_iff : (q : Text) → (balanced q ≡ true) ↔ IsBalanced (q ++ codes " ")
unfolding balanced IsClosing after_skip balanced_from
balanced_iff q = (
  balanced_from→IsClosing false 0 q,
  λ b.
      sym (balanced_from-blank false 0 q)
      ∙ sym (ap (balanced_from false 0) (append-nil (q ++ codes " ")))
      ∙ IsBalanced→balanced_from b 0 [],
)
