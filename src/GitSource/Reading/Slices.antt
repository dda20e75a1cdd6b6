-- ===== src/GitSource/Reading/Slices.antt =====
-- What the slice of a blob holds: the lines of the range, no more and no fewer.
use version_aware_code_mcp.Prelude.{
  ℕ, zero, suc, ◌+◌, ◌-◌, ◌≤◌, Text, ℤ, pos, negsuc, ltb_ℤ, List, [], ◌∷◌, ◌++◌, false, ◌≡◌, inl,
  inr, refl, sym, ap, subst, ◌∙◌, arith, length, take, drop, flatten, Bool-cases, take-append-drop,
}
use version_aware_code_mcp.Effect.{ok}
use version_aware_code_mcp.Provider.{SourceContent}
use version_aware_code_mcp.GitSource.Reading.{split_lines, is_no_range, slice, read_range}
use version_aware_code_mcp.GitSource.Reading.Lines.{
  IsLines, flatten-split_lines, split_lines-IsLines,
}

-- `content` is the lines from `start` to `end` of a text, both counted from 1.
pub record IsRange (blob : Text) (start end : ℤ) (content : Text) : Type 0 where
  pub before : List Text
  pub chosen : List Text
  pub after : List Text
  pub lines : IsLines (before ++ (chosen ++ after))
  pub whole : blob ≡ flatten (before ++ (chosen ++ after))
  pub first : pos (suc (length before)) ≡ start
  pub last : pos (length before + length chosen) ≡ end
  pub joined : content ≡ flatten chosen

length-take : {A : Type 0} (n : ℕ) (xs : List A) → n ≤ length xs → length (take n xs) ≡ n
length-take zero xs h = refl
length-take (suc n) [] h = absurd (omega arith)
length-take (suc n) (x ∷ xs) h = ap suc (length-take n xs (omega arith))

length-drop : {A : Type 0} (n : ℕ) (xs : List A) → length (drop n xs) ≡ length xs - n
length-drop zero xs = omega arith
length-drop (suc n) [] = omega arith
length-drop (suc n) (x ∷ xs) = omega (arith, length-drop n xs)

-- The three pieces that a slice cuts a list into.
slice-pieces :
    (s e : ℕ) (lines : List Text)
    → let rest = drop (s - 1) lines in
      take (s - 1) lines ++ (take (e - (s - 1)) rest ++ drop (e - (s - 1)) rest) ≡ lines
slice-pieces s e lines =
    ap (λ x. take (s - 1) lines ++ x) (take-append-drop (e - (s - 1)) (drop (s - 1) lines))
    ∙ take-append-drop (s - 1) lines

slice-IsRange :
    (blob : Text) (s e : ℕ)
    → 1 ≤ s
    → s ≤ e
    → e ≤ length (split_lines blob)
    → IsRange blob (pos s) (pos e) (flatten (slice (pos s) (pos e) (split_lines blob)))
slice-IsRange blob s e one le fits =
    let lines = split_lines blob in
    let rest = drop (s - 1) lines in
    let p = slice-pieces s e lines in
    let a = length-take (s - 1) lines (omega arith) in
    let b = length-take (e - (s - 1)) rest (omega (arith, length-drop (s - 1) lines)) in
    record {
      before = take (s - 1) lines;
      chosen = take (e - (s - 1)) rest;
      after = drop (e - (s - 1)) rest;
      lines = subst IsLines (sym p) (split_lines-IsLines blob);
      whole = sym (ap flatten p ∙ flatten-split_lines blob);
      first = ap pos (omega arith);
      last = ap pos (omega arith);
      joined = refl;
    }

-- A test that passes is a range of lines counted from 1.
range-cases :
    (start end : ℤ)
    → is_no_range start end ≡ false
    → (s : ℕ) × (e : ℕ) × (start ≡ pos s) × (end ≡ pos e) × (1 ≤ s) × (s ≤ e)
range-cases (pos s) (pos e) h = (s, e, refl, refl, ground arith, ground arith)
range-cases (negsuc s) e h = absurd (ground arith)
range-cases (pos s) (negsuc e) h = absurd (ground arith)

-- The lines that were asked for, out of a blob at a revision.
pub record IsExact (path blob revision : Text) (start end : ℤ) (r : SourceContent) : Type 0 where
  pub path_kept : r.path ≡ path
  pub revision_kept : r.revision ≡ revision
  pub start_kept : r.start_line ≡ start
  pub end_kept : r.end_line ≡ end
  pub range : IsRange blob start end r.content

pub read_range-IsExact :
    (path blob revision : Text) (start end : ℤ) (r : SourceContent)
    → is_no_range start end ≡ false
    → read_range path start end revision (split_lines blob) ≡ ok r
    → IsExact path blob revision start end r
unfolding read_range
read_range-IsExact path blob revision start end r h k =
    let (s, e, p, q, one, le) = range-cases start end h in
    elim (Bool-cases (ltb_ℤ (pos (length (split_lines blob))) end)) [
      | inl beyond ↦ absurd (cc (rw beyond at k))
      | inr fits ↦
          let found : SourceContent = record {
            path = path;
            start_line = start;
            end_line = end;
            content = flatten (slice start end (split_lines blob));
            revision = revision;
          } in
          let same : found ≡ r = ground (arith, rw fits at k) in
          let enough : ltb_ℤ (pos (length (split_lines blob))) (pos e) ≡ false = rw q at fits in
          let exact : IsRange blob start end (flatten (slice start end (split_lines blob))) =
            subst (λ x. IsRange blob x end (flatten (slice x end (split_lines blob)))) (sym p)
              (subst (λ y. IsRange blob (pos s) y (flatten (slice (pos s) y (split_lines blob))))
                (sym q) (slice-IsRange blob s e one le (ground arith))) in
          subst (IsExact path blob revision start end) same (record {
            path_kept = refl;
            revision_kept = refl;
            start_kept = refl;
            end_kept = refl;
            range = exact;
          })
    ]
