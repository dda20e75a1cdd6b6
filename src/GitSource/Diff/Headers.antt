-- ===== src/GitSource/Diff/Headers.antt =====
-- The header of a hunk, as it is written, is read back.
use version_aware_code_mcp.Prelude.{
  ℕ, Text, pos, List, [], ◌∷◌, ◌++◌, Option, none, some, ◌≡◌, ◌≢◌, inl, inr, refl, sym, ap, ◌∙◌,
  arith, codes, ◌==◌, Bool-cases, Lacks, append-nil, cut, put_before, cut_or, after_prefix,
  has_prefix, All-append,
}
use version_aware_code_mcp.Prelude.Numerals.Writing.{numeral, numeral-Lacks, atoi-numeral}
use version_aware_code_mcp.Provider.{DiffHunk, DiffLine}
use version_aware_code_mcp.GitSource.Diff.{parse_hunk_range, parse_hunk_header}
use version_aware_code_mcp.GitSource.Diff.Written.{
  WrittenHunk, range_text, header_text, hunk_said, Fits, IsInRange,
}

-- What stands in front of the first part of what was cut.
put_all_before : Text → Option (Text × Text) → Option (Text × Text)
put_all_before p none = none
put_all_before p (some (before, after)) = some (p ++ before, after)

put_before-put_all_before :
    (c : ℕ) (p : Text) (o : Option (Text × Text))
    → put_before c (put_all_before p o) ≡ put_all_before (c ∷ p) o
unfolding put_all_before
put_before-put_all_before c p none = refl
put_before-put_all_before c p (some (before, after)) = refl

put_all_before_nothing : (o : Option (Text × Text)) → o ≡ put_all_before [] o
unfolding put_all_before
put_all_before_nothing none = refl
put_all_before_nothing (some (before, after)) = refl

-- A separator is not found in a text that lacks its first character.
cut-append :
    (c : ℕ) (sep p s : Text)
    → Lacks c p
    → cut (c ∷ sep) (p ++ s) ≡ put_all_before p (cut (c ∷ sep) s)
unfolding cut after_prefix
cut-append c sep [] s h = put_all_before_nothing (cut (c ∷ sep) s)
cut-append c sep (d ∷ p) s h = elim (Bool-cases (d == c)) [
  | inl e ↦ absurd (h.0 (ground arith))
  | inr e ↦ rw e (
      ap (put_before d) (cut-append c sep p s h.1)
      ∙ put_before-put_all_before d p (cut (c ∷ sep) s))
]

cut_lone : (c : ℕ) (sep p : Text) → Lacks c p → cut (c ∷ sep) p ≡ none
unfolding cut after_prefix
cut_lone c sep [] h = refl
cut_lone c sep (d ∷ p) h = elim (Bool-cases (d == c)) [
  | inl e ↦ absurd (h.0 (ground arith))
  | inr e ↦ rw e (ap (put_before d) (cut_lone c sep p h.1))
]

after_prefix-append : (sep s : Text) → after_prefix (sep ++ s) sep ≡ some s
unfolding after_prefix
after_prefix-append [] s = refl
after_prefix-append (c ∷ sep) s = ground (arith, after_prefix-append sep s)

-- A text is cut in front of the separator.
cut_found :
    (c : ℕ) (sep p s : Text) → Lacks c p → cut (c ∷ sep) (p ++ (c ∷ (sep ++ s))) ≡ some (p, s)
unfolding cut put_all_before
cut_found c sep p s h =
    cut-append c sep p (c ∷ (sep ++ s)) h
    ∙ ap (λ o. put_all_before p (cut_or c o (cut (c ∷ sep) (sep ++ s))))
        (after_prefix-append (c ∷ sep) s)
    ∙ ap (λ q. some (q, s)) (append-nil p)

-- A range that is written is read back.
range-range_text :
    (start lines : ℕ)
    → Fits start
    → Fits lines
    → parse_hunk_range (range_text start lines) ≡ some (pos start, pos lines)
unfolding parse_hunk_range
range-range_text start lines f k = elim (Bool-cases (lines == 1)) [
  | inl e ↦
      rw
        (
          e,
          cut_lone 44 [] (numeral start) (numeral-Lacks 44 start (omega arith)),
          atoi-numeral start f,
        )
        (ap (λ n. some (pos start, pos n)) (sym (ground arith)))
  | inr e ↦
      rw
        (
          e,
          cut_found 44 [] (numeral start) (numeral lines) (numeral-Lacks 44 start (omega arith)),
          atoi-numeral start f,
          atoi-numeral lines k,
        )
        refl
]

range_text-Lacks : (start lines : ℕ) → Lacks 32 (range_text start lines)
range_text-Lacks start lines =
    let a = numeral-Lacks 32 start (omega arith) in
    elim (Bool-cases (lines == 1)) [
      | inl e ↦ rw e a
      | inr e ↦ rw e (
          All-append (λ c. c ≢ 32) (numeral start) (44 ∷ numeral lines) a
            ((λ q. omega arith), numeral-Lacks 32 lines (omega arith)))
    ]

-- The header's two ranges, cut apart.
cut-header :
    (a b heading : Text)
    → Lacks 32 a
    → Lacks 32 b
    → cut (codes " @@") (45 ∷ (a ++ (codes " +" ++ (b ++ (codes " @@" ++ heading)))))
      ≡ some (45 ∷ (a ++ (32 ∷ 43 ∷ b)), heading)
unfolding cut after_prefix put_all_before
cut-header a b heading h k =
    cut-append 32 (codes "@@") (45 ∷ a) (codes " +" ++ (b ++ (codes " @@" ++ heading)))
      ((λ q. omega arith), h)
    ∙ ap (λ o. put_all_before (45 ∷ a) (put_before 32 o))
        (cut_found 32 (codes "@@") (43 ∷ b) heading ((λ q. omega arith), k))

-- The hunk as it is in front of its lines.
abbrev pub opened : WrittenHunk → List DiffLine → DiffHunk
opened h lines = record (hunk_said h) { lines = lines }

pub parse-header_text :
    (h : WrittenHunk) → IsInRange h → parse_hunk_header (header_text h) ≡ some (opened h [])
unfolding parse_hunk_header after_prefix has_prefix
parse-header_text h r =
    let a = range_text-Lacks h.old_start h.old_lines in
    let b = range_text-Lacks h.new_start h.new_lines in
    rw
      (
        cut-header (range_text h.old_start h.old_lines) (range_text h.new_start h.new_lines)
            h.heading a b,
        cut_found 32 (43 ∷ []) (45 ∷ range_text h.old_start h.old_lines)
            (range_text h.new_start h.new_lines) ((λ q. omega arith), a),
        range-range_text h.old_start h.old_lines r.old_start r.old_lines,
        range-range_text h.new_start h.new_lines r.new_start r.new_lines,
      )
      refl
