-- ===== src/GitSource/History/Matching.antt =====
-- The loops of parseHistory stop early, and give what a full listing begins with.
use version_aware_code_mcp.Prelude.{
  ℕ, zero, suc, ◌≤◌, Text, ℤ, pos_part, List, [], ◌∷◌, ◌++◌, take, length, Option, none, some, true,
  ◌≡◌, ◌⊎◌, inl, inr, refl, sym, ap, subst, ◌∙◌, arith, if◌then◌else◌, leb, Bool-cases, text_eq,
  text_eq_iff, trim_space, split_on, length-append, append-nil, append_assoc, All, All-append,
}
use version_aware_code_mcp.Provider.{HistoryEntry}
use version_aware_code_mcp.GitSource.History.{
  Locale, Commit, parse_record, needle_of, is_wanted, is_reported, entry_of, Walk, going, returned,
  walk_on, walk_paths, walk_record, walk_records, walked, parse_history, record_separator,
}

-- The entries of a commit: one for each path that is reported.
unfoldable pub commit_entries : Text → Commit → List Text → List HistoryEntry
unfolding is_reported trim_space
commit_entries filter c [] = []
commit_entries filter c (line ∷ rest) =
    let more = commit_entries filter c rest in
    if is_reported filter (trim_space line) then entry_of c (trim_space line) ∷ more else more

module _ (locale : Locale) (filter needle : Text) where
  abbrev pub wanted_entries : Option Commit → List HistoryEntry
  wanted_entries none = []
  wanted_entries (some c) =
      if is_wanted locale needle c then commit_entries filter c c.paths else []

  -- All that a walk's output says, however long.
  unfoldable pub all_entries : List Text → List HistoryEntry
  unfolding commit_entries is_wanted parse_record
  all_entries [] = []
  all_entries (text ∷ rest) = wanted_entries (parse_record locale text) ++ all_entries rest

module _ {A : Type 0} where
  take-append : (n : ℕ) (xs ys : List A) → n ≤ length xs → take n (xs ++ ys) ≡ take n xs
  take-append zero xs ys h = refl
  take-append (suc n) [] ys h = absurd (omega arith)
  take-append (suc n) (x ∷ xs) ys h = ap (λ zs. x ∷ zs) (take-append n xs ys (omega arith))

  take_all : (n : ℕ) (xs : List A) → length xs ≤ n → take n xs ≡ xs
  take_all zero [] h = refl
  take_all zero (x ∷ xs) h = absurd (omega arith)
  take_all (suc n) [] h = refl
  take_all (suc n) (x ∷ xs) h = ap (λ zs. x ∷ zs) (take_all n xs (omega arith))

  pub length-take_le : (n : ℕ) (xs : List A) → length (take n xs) ≤ n
  length-take_le zero xs = omega arith
  length-take_le (suc n) [] = omega arith
  length-take_le (suc n) (x ∷ xs) = omega (arith, length-take_le n xs)

  pub All-take : (P : A → Type 0) (n : ℕ) (xs : List A) → All P xs → All P (take n xs)
  All-take P zero xs h = tt
  All-take P (suc n) [] h = tt
  All-take P (suc n) (x ∷ xs) h = (h.0, All-take P n xs h.1)

-- The loops' state, against all that there was to see so far.
Sees : ℕ → List HistoryEntry → Walk → Type 0
Sees limit all (going entries) = (entries ≡ all) × (length entries ≤ limit)
Sees limit all (returned entries) = (entries ≡ take limit all) × (limit ≤ length all)

module _ (limit : ℕ) where
  -- Nothing that comes later changes what was returned.
  Sees-returned :
      (all more entries : List HistoryEntry)
      → Sees limit all (returned entries)
      → Sees limit (all ++ more) (returned entries)
  unfolding Sees
  Sees-returned all more entries h =
      (h.0 ∙ sym (take-append limit all more h.1), omega (arith, length-append all more, h.1))

  walk_paths-Sees :
      (filter : Text) (c : Commit) (entries : List HistoryEntry) (lines : List Text)
      → length entries ≤ limit
      → Sees limit
          (entries ++ commit_entries filter c lines)
          (walk_paths limit filter c entries lines)
  unfolding Sees walk_paths commit_entries
  walk_paths-Sees filter c entries [] h = (sym (append-nil entries), h)
  walk_paths-Sees filter c entries (line ∷ rest) h =
      let more = commit_entries filter c rest in
      let e = entry_of c (trim_space line) in
      elim (Bool-cases (is_reported filter (trim_space line))) [
        | inl passes ↦ elim (Bool-cases (leb limit (length entries))) [
          | inl full ↦
              rw (passes, walk_paths, full)
                (
                  sym (
                      take-append limit entries (e ∷ more) (ground arith)
                      ∙ take_all limit entries h),
                  omega
                      (arith, length-append entries (e ∷ more), ==_le limit (length entries) full),
                )
          | inr free ↦
              rw (passes, walk_paths, free)
                (subst (λ all. Sees limit all (walk_paths limit filter c (entries ++ e ∷ []) rest))
                  (append_assoc entries (e ∷ []) more)
                  (walk_paths-Sees filter c (entries ++ e ∷ []) rest
                    (ground (arith, length-append entries (e ∷ [])))))
        ]
        | inr fails ↦ rw (walk_paths, fails) (walk_paths-Sees filter c entries rest h)
      ]
    where
      ==_le : (m n : ℕ) → leb m n ≡ true → m ≤ n
      ==_le m n k = ground arith

  module _ (locale : Locale) (filter needle : Text) where
    walk_record-Sees :
        (entries : List HistoryEntry) (o : Option Commit)
        → length entries ≤ limit
        → Sees limit
            (entries ++ wanted_entries locale filter needle o)
            (walk_record locale limit filter needle entries o)
    unfolding walk_record Sees
    walk_record-Sees entries none h = (sym (append-nil entries), h)
    walk_record-Sees entries (some c) h = elim (Bool-cases (is_wanted locale needle c)) [
      | inl passes ↦ rw passes (walk_paths-Sees filter c entries c.paths h)
      | inr fails ↦ rw fails (sym (append-nil entries), h)
    ]

    walk_on-Sees :
        (all more : List HistoryEntry) (w : Walk) (k : List HistoryEntry → Walk)
        → Sees limit all w
        → (length all ≤ limit → Sees limit (all ++ more) (k all))
        → Sees limit (all ++ more) (walk_on w k)
    unfolding Sees
    walk_on-Sees all more (going entries) k h f =
        subst (λ es. Sees limit (all ++ more) (k es)) (sym h.0)
          (f (subst (λ es. length es ≤ limit) h.0 h.1))
    walk_on-Sees all more (returned entries) k h f = Sees-returned all more entries h

    walk_records-Sees :
        (entries : List HistoryEntry) (texts : List Text)
        → length entries ≤ limit
        → Sees limit
            (entries ++ all_entries locale filter needle texts)
            (walk_records locale limit filter needle entries texts)
    unfolding walk_records all_entries Sees
    walk_records-Sees entries [] h = (sym (append-nil entries), h)
    walk_records-Sees entries (text ∷ rest) h =
        let now = wanted_entries locale filter needle (parse_record locale text) in
        let more = all_entries locale filter needle rest in
        let step = walk_record locale limit filter needle entries (parse_record locale text) in
        let onward : List HistoryEntry → Walk =
          λ es. walk_records locale limit filter needle es rest in
        subst (λ all. Sees limit all (walk_on step onward)) (append_assoc entries now more)
          (walk_on-Sees (entries ++ now) more step onward
            (walk_record-Sees entries (parse_record locale text) h)
            (λ fits. walk_records-Sees (entries ++ now) rest fits))

walked-Sees :
    (locale : Locale) (limit : ℕ) (all : List HistoryEntry) (w : Walk)
    → Sees limit all w
    → walked locale w ≡ take limit all
unfolding Sees
walked-Sees locale limit all (going entries) h =
    sym (ap (take limit) (sym h.0) ∙ take_all limit entries h.1)
walked-Sees locale limit all (returned entries) h = h.0

-- What is read out of a walk is the first `limit` entries of the full listing: a commit that passes
-- the message filter, once for each path that passes the path filter, in git's order.
pub parse_history-take :
    (locale : Locale) (out query filter : Text) (limit : ℤ)
    → parse_history locale out query filter limit
      ≡ take
          (pos_part limit)
          (all_entries locale filter (needle_of locale query) (split_on record_separator out))
unfolding parse_history
parse_history-take locale out query filter limit =
    let needle = needle_of locale query in
    walked-Sees locale (pos_part limit) _ _ (
      walk_records-Sees (pos_part limit) locale filter needle [] (split_on record_separator out)
        (omega arith))

-- What is reported passed both filters.
pub record IsMatch (locale : Locale) (filter needle : Text) (e : HistoryEntry) : Type 0 where
  pub commit : Commit
  pub wanted : is_wanted locale needle commit ≡ true
  pub path : (filter ≡ []) ⊎ (e.path ≡ filter)
  pub whole : e ≡ entry_of commit e.path

is_reported-path :
    (filter path : Text) → is_reported filter path ≡ true → (filter ≡ []) ⊎ (path ≡ filter)
unfolding is_reported
is_reported-path filter path h = elim (Bool-cases (text_eq filter [])) [
  | inl none_given ↦ inl ((text_eq_iff filter []).0 none_given)
  | inr given ↦ inr ((text_eq_iff path filter).0 (ground (arith, given, h)))
]

module _ (locale : Locale) (filter needle : Text) where
  commit_entries-IsMatch :
      (c : Commit) (lines : List Text)
      → is_wanted locale needle c ≡ true
      → All (IsMatch locale filter needle) (commit_entries filter c lines)
  unfolding commit_entries
  commit_entries-IsMatch c [] w = tt
  commit_entries-IsMatch c (line ∷ rest) w =
      elim (Bool-cases (is_reported filter (trim_space line))) [
        | inl passes ↦ rw passes (
          record {
            commit = c;
            wanted = w;
            path = is_reported-path filter (trim_space line) passes;
            whole = refl;
          },
          commit_entries-IsMatch c rest w,
        )
        | inr fails ↦ rw fails (commit_entries-IsMatch c rest w)
      ]

  wanted_entries-IsMatch :
      (o : Option Commit)
      → All (IsMatch locale filter needle) (wanted_entries locale filter needle o)
  wanted_entries-IsMatch none = tt
  wanted_entries-IsMatch (some c) = elim (Bool-cases (is_wanted locale needle c)) [
    | inl passes ↦ rw passes (commit_entries-IsMatch c c.paths passes)
    | inr fails ↦ rw fails tt
  ]

  pub all_entries-IsMatch :
      (texts : List Text)
      → All (IsMatch locale filter needle) (all_entries locale filter needle texts)
  unfolding all_entries
  all_entries-IsMatch [] = tt
  all_entries-IsMatch (text ∷ rest) =
      All-append (IsMatch locale filter needle)
        (wanted_entries locale filter needle (parse_record locale text))
        (all_entries locale filter needle rest) (wanted_entries-IsMatch (parse_record locale text))
        (all_entries-IsMatch rest)
