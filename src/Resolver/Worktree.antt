-- ===== src/Resolver/Worktree.antt =====
-- The check of a working tree fails closed.
use version_aware_code_mcp.Prelude.{
  Text, Bool, true, false, ◌≡◌, ◌↔◌, inl, inr, refl, ap, ap₂, sym, ◌∙◌, codes, text_eq, text_eq_iff,
  text_eq_refl,
}
use version_aware_code_mcp.Vacctx.{CodeContext}
use version_aware_code_mcp.Effect.{ok}
use version_aware_code_mcp.Resolver.{Git, rev_parse, git_dir, compare_commits, verify_worktree}
use version_aware_code_mcp.Resolver.Resolution.{handle-cases}

-- The declared revision and then `HEAD` are the same commit.
pub record IsOnRevision {W : Type 0} (g : Git W) (path : Text) (m : CodeContext) (w u : W)
    : Type 0 where
  pub commit : Text
  pub between : W
  pub declared : rev_parse g path m.revision w ≡ (ok commit, between)
  pub head : rev_parse g path (codes "HEAD") between ≡ (ok commit, u)

module _ {W : Type 0} (g : Git W) (path : Text) (m : CodeContext) where
  compared :
      (declared actual : Text) (v u : W) (b : Bool)
      → compare_commits g path m declared actual b v ≡ (ok tt, u)
      → (b ≡ true) × (v ≡ u)
  compared declared actual v u true h = (refl, ap (λ x. x.1) h)
  compared declared actual v u false h = absurd (cc (ap (λ x. x.0) h))

  verify_worktree→IsOnRevision :
      (w u : W) → verify_worktree g path m w ≡ (ok tt, u) → IsOnRevision g path m w u
  unfolding verify_worktree
  verify_worktree→IsOnRevision w u h = elim (handle-cases (rev_parse g path m.revision w) _ _ h) [
    | inl (declared, v, parsed, k) ↦ elim (handle-cases (rev_parse g path (codes "HEAD") v) _ _ k) [
      | inl (actual, v', head, last) ↦
          let (same, e) = compared declared actual v' u (text_eq declared actual) last in
          record {
            commit = declared;
            between = v;
            declared = parsed;
            head = head ∙ ap₂ (λ x y. (ok x, y)) (sym ((text_eq_iff declared actual).0 same)) e;
          }
      | inr (x, v', _, last) ↦ absurd (cc (ap (λ y. y.0) last))
    ]
    | inr (x, v, _, k) ↦ elim (handle-cases (git_dir g path v) _ _ k) [
      | inl (a, v', _, last) ↦ absurd (cc (ap (λ y. y.0) last))
      | inr (y, v', _, last) ↦ absurd (cc (ap (λ z. z.0) last))
    ]
  ]

  -- A working tree passes exactly if git resolves the declared revision and then `HEAD`, both to
  -- one commit; every failure of a command, and every other commit, is an error.
  pub verify_worktree_iff :
      (w u : W) → (verify_worktree g path m w ≡ (ok tt, u)) ↔ IsOnRevision g path m w u
  unfolding verify_worktree
  verify_worktree_iff w u =
      (verify_worktree→IsOnRevision w u, λ r. rw (r.declared, r.head, text_eq_refl r.commit) refl)
