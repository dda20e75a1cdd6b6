-- ===== src/Engine/Compare/Changes.antt =====
-- A comparison of one file: both sides in one repository, and each side present exactly where the
-- provider's change means that its version has the file.
use version_aware_code_mcp.Prelude.{
  Text, [], ◌∷◌, Option, none, some, Bool, true, false, ◌≡◌, inl, inr, refl, ap, subst, ◌∙◌, arith,
  codes, if◌then◌else◌, text_eq, text_eq_iff, Bool-cases,
}
use version_aware_code_mcp.Vacctx.{CodeContext, Workspace}
use version_aware_code_mcp.Effect.{ok, both, bind-eq-ok}
use version_aware_code_mcp.Provider.{
  SourceProvider, SourceDiffer, SourceDiff, DiffChange, added, removed, modified, unchanged,
}
use version_aware_code_mcp.Engine.{Engine, in_one_member, no_answer}
use version_aware_code_mcp.Engine.Scope.{IsScope, narrow-ok, pure-eq}
use version_aware_code_mcp.Engine.Compare.{
  CodeChange, code_unchanged, code_modified, code_added, code_removed, ComparisonSide,
  CompareCodeRequest, CompareCodeResult, present, member_to_compare, code_change, from_side,
  to_side, diff_result, diff_capability, diff_with, compare_sides, compare_code,
}

module _ {W : Type 0} (e : Engine W) where
  -- One side of a comparison, narrowed.
  pub member_to_compare-ok :
      (side id repository : Text) (w v : W) (c : CodeContext)
      → member_to_compare e side id repository w ≡ (ok c, v)
      → (ws : Workspace) × IsScope e id repository w v ws (c ∷ [])
  unfolding member_to_compare
  member_to_compare-ok side id repository w v c h = narrow-ok e id repository _ w v c h

  -- Two sides, narrowed one after the other.
  pub record AreSides (from_id to_id repository : Text) (w v : W) (from to : CodeContext)
      : Type 0 where
    pub from_workspace : Workspace
    pub between : W
    pub from_scope : IsScope e from_id repository w between from_workspace (from ∷ [])
    pub to_workspace : Workspace
    pub to_scope : IsScope e to_id repository between v to_workspace (to ∷ [])

-- What the provider's word for a change means: what the answer calls it, whether the `from` version
-- has the file, and whether the `to` version has it.
pub data Means : DiffChange → CodeChange → Bool → Bool → Type 0 where
  same_content : Means unchanged code_unchanged true true
  other_content : Means modified code_modified true true
  only_to : Means added code_added false true
  only_from : Means removed code_removed true false

-- One side, where it is known whether its version has the file.
abbrev pub side_if : Bool → CodeContext → ComparisonSide
side_if has c = if has then in_one_member c [] else no_answer

-- The sides of an answer are those of what the provider's word means.
pub record IsTold (word : DiffChange) (change : CodeChange) : Type 0 where
  pub from_has : Bool
  pub to_has : Bool
  pub means : Means word change from_has to_has
  pub from_told : (c : CodeContext) → from_side change c ≡ side_if from_has c
  pub to_told : (c : CodeContext) → to_side change c ≡ side_if to_has c

side_if-present : (has : Bool) (c : CodeContext) → present (side_if has c) ≡ has
side_if-present true c = refl
side_if-present false c = refl

told :
    {word : DiffChange} {found change : CodeChange} {from_has to_has : Bool}
    → Means word found from_has to_has
    → ((c : CodeContext) → from_side found c ≡ side_if from_has c)
    → ((c : CodeContext) → to_side found c ≡ side_if to_has c)
    → some found ≡ some change
    → IsTold word change
told {word} {found} {change} {from_has} {to_has} m p q same =
    subst (IsTold word) (ground (arith, same))
      (record { from_has = from_has; to_has = to_has; means = m; from_told = p; to_told = q })

code_change-IsTold :
    (word : DiffChange) (change : CodeChange) → code_change word ≡ some change → IsTold word change
unfolding code_change
code_change-IsTold unchanged change h = told Means.same_content (λ c. refl) (λ c. refl) h
code_change-IsTold modified change h = told Means.other_content (λ c. refl) (λ c. refl) h
code_change-IsTold added change h = told Means.only_to (λ c. refl) (λ c. refl) h
code_change-IsTold removed change h = told Means.only_from (λ c. refl) (λ c. refl) h
code_change-IsTold (DiffChange.other t) change h = absurd (cc)

module _ {W : Type 0} (e : Engine W) (req : CompareCodeRequest) where
  -- What a comparison of one file answers.
  pub record IsDiffed (w u : W) (r : CompareCodeResult) : Type 0 where
    pub from : CodeContext
    pub to : CodeContext
    pub v : W
    pub sides : AreSides e req.from_context req.to_context req.repository w v from to
    pub same_repository : from.repository ≡ to.repository
    pub provider : SourceProvider W
    pub installed : e.source ≡ some provider
    pub differ : SourceDiffer W
    pub capable : provider.differ ≡ some differ
    pub diff : SourceDiff
    pub compared : differ from to req.path v ≡ (ok diff, u)
    pub reported : (r.path ≡ diff.path) × (r.hunks ≡ diff.hunks) × (r.binary ≡ diff.binary)
    pub from_has : Bool
    pub to_has : Bool
    pub means : Means diff.change r.change from_has to_has
    pub from_answer : r.from ≡ side_if from_has from
    pub to_answer : r.to ≡ side_if to_has to
    pub from_present : present r.from ≡ from_has
    pub to_present : present r.to ≡ to_has

  diff_capability-IsDiffed :
      (w v u : W) (from to : CodeContext) (r : CompareCodeResult)
      → AreSides e req.from_context req.to_context req.repository w v from to
      → from.repository ≡ to.repository
      → (p : SourceProvider W) → e.source ≡ some p
      → (d : Option (SourceDiffer W)) → p.differ ≡ d
      → diff_capability d req from to v ≡ (ok r, u)
      → IsDiffed w u r
  unfolding diff_capability
  diff_capability-IsDiffed w v u from to r sides same p i none j k = absurd (cc (ap (λ x. x.0) k))
  diff_capability-IsDiffed w v u from to r sides same p i (some d) j k =
      let (diff, v', ran, last) = bind-eq-ok (d from to req.path) _ v k in
      let moved : v' ≡ u = ap (λ x. x.1) last in
      go diff (ran ∙ both refl moved) (code_change diff.change) refl (ap (λ x. x.0) last)
    where
      go :
          (diff : SourceDiff)
          → d from to req.path v ≡ (ok diff, u)
          → (c : Option CodeChange) → code_change diff.change ≡ c
          → diff_result req from to diff c ≡ ok r
          → IsDiffed w u r
      go diff ran none t m = absurd (cc)
      go diff ran (some change) t m =
          let known = code_change-IsTold diff.change change t in
          pure-eq (λ x y. IsDiffed w u x) {w = u} {u = u} (both m refl)
            (record {
              from = from;
              to = to;
              v = v;
              sides = sides;
              same_repository = same;
              provider = p;
              installed = i;
              differ = d;
              capable = j;
              diff = diff;
              compared = ran;
              reported = (refl, refl, refl);
              from_has = known.from_has;
              to_has = known.to_has;
              means = known.means;
              from_answer = known.from_told from;
              to_answer = known.to_told to;
              from_present =
                  ap present (known.from_told from) ∙ side_if-present known.from_has from;
              to_present = ap present (known.to_told to) ∙ side_if-present known.to_has to;
            })

  diff_with-IsDiffed :
      (w v u : W) (from to : CodeContext) (r : CompareCodeResult)
      → AreSides e req.from_context req.to_context req.repository w v from to
      → from.repository ≡ to.repository
      → (s : Option (SourceProvider W)) → e.source ≡ s
      → diff_with s req from to v ≡ (ok r, u)
      → IsDiffed w u r
  unfolding diff_with
  diff_with-IsDiffed w v u from to r sides same none i k = absurd (cc (ap (λ x. x.0) k))
  diff_with-IsDiffed w v u from to r sides same (some p) i k =
      diff_capability-IsDiffed w v u from to r sides same p i p.differ refl k

  -- A comparison that succeeds compared one complete member of each context, both of the same
  -- repository, and reports the provider's difference under the name of its change; a version is
  -- present, with its own member and nothing cited, exactly if the provider's change means that it
  -- has the file: an added one only `to` has, a removed one only `from`, any other both.
  pub compare_code-IsDiffed :
      (w u : W) (r : CompareCodeResult) → compare_code e req w ≡ (ok r, u) → IsDiffed w u r
  unfolding compare_code compare_sides
  compare_code-IsDiffed w u r h =
      let (from, b, first, rest) =
        bind-eq-ok (member_to_compare e (codes "from") req.from_context req.repository) _ w h in
      let (to, v, second, rest') =
        bind-eq-ok (member_to_compare e (codes "to") req.to_context req.repository) _ b rest in
      let (from_ws, from_scope) =
        member_to_compare-ok e (codes "from") req.from_context req.repository w b from first in
      let (to_ws, to_scope) =
        member_to_compare-ok e (codes "to") req.to_context req.repository b v to second in
      let sides : AreSides e req.from_context req.to_context req.repository w v from to = record {
        from_workspace = from_ws;
        between = b;
        from_scope = from_scope;
        to_workspace = to_ws;
        to_scope = to_scope;
      } in
      elim (Bool-cases (text_eq from.repository to.repository)) [
        | inl same ↦
            diff_with-IsDiffed w v u from to r sides
              ((text_eq_iff from.repository to.repository).0 same) e.source refl (rw same at rest')
        | inr differs ↦ absurd (cc (ap (λ x. x.0) (rw differs at rest')))
      ]
