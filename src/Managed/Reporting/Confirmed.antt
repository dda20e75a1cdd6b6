-- ===== src/Managed/Reporting/Confirmed.antt =====
-- What Verify has confirmed when it reports a context, and what Status has a row for.
use version_aware_code_mcp.Prelude.{Text, List, [], ◌∷◌, map, ◌≡◌, refl, sym, ap, subst, arith, All}
use version_aware_code_mcp.Effect.{Result, ok, err, bind-eq-ok, lift-bind-eq-ok}
use version_aware_code_mcp.Store
use version_aware_code_mcp.Store.{Context, ContextMember, Disk}
use version_aware_code_mcp.Store.Repositories.{worktree_dir}
use version_aware_code_mcp.Managed.Plane.{Member, member_of, ManagedContext, context_of}
use version_aware_code_mcp.Managed.Naming.{is_several}
use version_aware_code_mcp.Managed.Naming.Identity.{IsGenerated}
use version_aware_code_mcp.Managed.Verifying.{Artifacts, verify_context}
use version_aware_code_mcp.Managed.Verifying.Verified.{AllVerified, verify_context-AllVerified}
use version_aware_code_mcp.Managed.Reporting.{
  MemberArtifacts, ContextStatus, after, artifacts_from, artifacts_of, status, verify,
}

after-ok :
    {A B : Type 0} (r : Result A) (f : A → Result B) (b : B)
    → after r f ≡ ok b
    → (a : A) × (r ≡ ok a) × (f a ≡ ok b)
after-ok (ok a) f b h = (a, refl, h)
after-ok (err e) f b h = absurd (cc)

abbrev pub member_in : MemberArtifacts → Member
member_in row = record { repository = row.repository; revision = row.revision }

artifacts_from-members :
    (root id : Text) (ms : List ContextMember) (rows : List MemberArtifacts)
    → artifacts_from root id ms ≡ ok rows
    → map member_in rows ≡ map member_of ms
unfolding artifacts_from
artifacts_from-members root id [] [] h = refl
artifacts_from-members root id [] (_ ∷ _) h = absurd (cc)
artifacts_from-members root id (m ∷ rest) rows h =
    let (worktree, p, more) = after-ok (worktree_dir root m.repository id) _ rows h in
    let (later, q, same) = after-ok (artifacts_from root id rest) _ rows more in
    let found : artifacts_of m worktree ∷ later ≡ rows = ground (arith, same) in
    subst (λ x. map member_in x ≡ map member_of (m ∷ rest)) found
      (ap (λ x. member_of m ∷ x) (artifacts_from-members root id rest later q))

-- A status has one row for each member of the context, in the order of its members.
pub status-members :
    (root id : Text) (disk : Disk) (s : ContextStatus)
    → status root id disk ≡ ok s
    → map member_in s.artifacts ≡ s.context.members
unfolding status
status-members root id disk s h =
    let (c, p, more) = after-ok (Store.context id disk) _ s h in
    let (rows, q, same) = after-ok (artifacts_from root c.id c.members) _ s more in
    let found : record { context = context_of c; artifacts = rows } ≡ s = ground (arith, same) in
    subst (λ x. map member_in x.artifacts ≡ x.context.members) found
      (artifacts_from-members root c.id c.members rows q)

module _ {W : Type 0} (a : Artifacts W) where
  -- What has been confirmed of the context that a verification reports.
  pub record IsConfirmed (id : Text) (disk : Disk) (w u : W) (r : ManagedContext) : Type 0 where
    pub filed : Context
    pub read : Store.context id disk ≡ ok filed
    pub reported : r ≡ context_of filed
    pub artifacts : AllVerified a filed.id filed.members w u
    pub generated : All (IsGenerated (is_several filed.members) filed.id) filed.members

  -- A Verify that succeeds reports the context that is filed under the name, as it is filed; and it
  -- has, for each member in turn, a clone that resolves the pinned revision to itself, a worktree
  -- whose HEAD it is, a search ref that points at it, a file in the index that is named as a shard of
  -- its repository, and a graph that CBM listed on a page; each is pinned at a full SHA and carries exactly the names that are generated for it.
  pub verify-IsConfirmed :
      (id : Text) (disk : Disk) (w u : W) (r : ManagedContext)
      → verify a id disk w ≡ (ok r, u)
      → IsConfirmed id disk w u r
  unfolding verify
  verify-IsConfirmed id disk w u r h =
      let (c, p, more) = lift-bind-eq-ok (Store.context id disk) _ w h in
      let (x, v, checked, same) = bind-eq-ok (verify_context a c) _ w more in
      let there : v ≡ u = ap (λ z. z.1) same in
      let found : context_of c ≡ r = ground (arith, ap (λ z. z.0) same) in
      let (passed, named) = verify_context-AllVerified a c w v checked in
      record {
        filed = c;
        read = p;
        reported = sym found;
        artifacts = subst (AllVerified a c.id c.members w) there passed;
        generated = named;
      }
