-- ===== src/Managed/Verifying/Verified.antt =====
-- What a context that passes its verification has.
use version_aware_code_mcp.Prelude.{
  suc, Text, pos, List, [], ◌∷◌, ◌++◌, Option, none, some, ◌≡◌, ◌≢◌, refl, sym, arith, inl, inr, ap,
  subst, ◌∙◌, codes, text_eq, text_eq_iff, Bool-cases, All,
}
use version_aware_code_mcp.Vacerr
use version_aware_code_mcp.Vacerr.{Failure}
use version_aware_code_mcp.Effect.{Result, ok, Effect, bind-eq-ok, lift-bind-eq-ok}
use version_aware_code_mcp.Resolver.Resolution.{handle-cases}
use version_aware_code_mcp.Store.{Context, ContextMember}
use version_aware_code_mcp.Store.Repositories.{repository_dir, worktree_dir}
use version_aware_code_mcp.Managed.Naming.{rev_parse, is_several}
use version_aware_code_mcp.Managed.Naming.Identity.{IsGenerated, verify_identity_iff}
use version_aware_code_mcp.Managed.Graphs.{verify_graph_from, verify_graph}
use version_aware_code_mcp.Managed.Graphs.Paging.{
  IsFinite, IsHeld, verify_graph_from-IsHeld, verify_graph-IsEnded,
}
use version_aware_code_mcp.Managed.Shards.{DirEntry, shards_of}
use version_aware_code_mcp.Managed.Shards.Named.{HasShard, shards_of-HasShard}
use version_aware_code_mcp.Managed.Verifying.{
  Artifacts, index_dir, repository_shards, walked, check_graph, member_details, lost_revision,
  unavailable, verify_commit, verify_ref, asked_for, head_of, verify_source, ref_of, some_shard,
  verify_search_ref, verify_member, verify_members, verify_context,
}

module _ {W : Type 0} (a : Artifacts W) where
  asked_for-ok :
      (question : Effect W Text) (refusal : Failure → Failure) (m : ContextMember)
      (details : Vacerr.Details) (w u : W)
      → asked_for a question refusal m details w ≡ (ok tt, u)
      → question w ≡ (ok m.revision, u)
  asked_for-ok question refusal m details w u h = elim (handle-cases (question w) _ _ h) [
    | inr (f, v, e, k) ↦ absurd (cc (ap (λ x. x.0) k))
    | inl (found, v, e, k) ↦ elim (Bool-cases (text_eq found m.revision)) [
      | inr other ↦ absurd (cc (ap (λ x. x.0) (rw other at k)))
      | inl same ↦
          let there : v ≡ u = ap (λ x. x.1) (rw same at k) in
          e ∙ λ i. (ok ((text_eq_iff found m.revision).0 same i), there i)
    ]
  ]

  -- A member whose every artifact answered with the revision that it is pinned to, whose repository
  -- has a file in the index, and whose graph stands on a page that CBM listed.
  pub record IsVerified (id : Text) (m : ContextMember) (w u : W) : Type 0 where
    pub dir : Text
    pub clone : repository_dir a.root m.repository ≡ ok dir
    pub worktree : Text
    pub checkout : worktree_dir a.root m.repository id ≡ ok worktree
    pub after_commit : W
    pub commit : rev_parse a.git dir m.revision w ≡ (ok m.revision, after_commit)
    pub after_head : W
    pub head : head_of a worktree after_commit ≡ (ok m.revision, after_head)
    pub after_ref : W
    pub ref : ref_of a dir m after_head ≡ (ok m.revision, after_ref)
    pub after_shards : W
    pub entries : List DirEntry
    pub indexed : a.read_dir (index_dir a) after_ref ≡ (ok entries, after_shards)
    pub shard : HasShard m.repository entries
    pub asked :
        verify_graph a.list_projects (suc a.most_projects) id m after_shards ≡ some (ok tt, u)
    pub graph : IsHeld a.list_projects m u

  some_shard-ok :
      (id : Text) (m : ContextMember) (paths : List Text) (w u : W)
      → some_shard a id m paths w ≡ (ok tt, u)
      → (paths ≢ []) × (w ≡ u)
  some_shard-ok id m [] w u h = absurd (cc (ap (λ x. x.0) h))
  some_shard-ok id m (path ∷ rest) w u h = ((λ e. cc), ap (λ x. x.1) h)

  repository_shards-ok :
      (repository : Text) (paths : List Text) (w u : W)
      → repository_shards a repository w ≡ (ok paths, u)
      → (entries : List DirEntry) × (a.read_dir (index_dir a) w ≡ (ok entries, u))
        × (shards_of (index_dir a) repository entries ≡ paths)
  unfolding repository_shards
  repository_shards-ok repository paths w u h =
      elim (handle-cases (a.read_dir (index_dir a) w) _ _ h) [
        | inr (f, v, e, k) ↦ absurd (cc (ap (λ x. x.0) k))
        | inl (entries, v, e, k) ↦
            (entries, e ∙ ap (λ x. (ok entries, x.1)) k, ground (arith, ap (λ x. x.0) k))
      ]

  -- A check of the graph that passes is a walk over the pages that does, and has seen it on one.
  check_graph-IsHeld :
      (id : Text) (m : ContextMember) (w u : W)
      → check_graph a id m w ≡ (ok tt, u)
      → (verify_graph a.list_projects (suc a.most_projects) id m w ≡ some (ok tt, u))
        × IsHeld a.list_projects m u
  unfolding check_graph verify_graph
  check_graph-IsHeld id m w u h =
      go (verify_graph_from a.list_projects (suc a.most_projects) id m (pos 0) w) refl h
    where
      go :
          (o : Option (Result (Unit {0}) × W))
          → verify_graph_from a.list_projects (suc a.most_projects) id m (pos 0) w ≡ o
          → walked a id m w o ≡ (ok tt, u)
          → (verify_graph_from a.list_projects (suc a.most_projects) id m (pos 0) w
              ≡ some (ok tt, u))
            × IsHeld a.list_projects m u
      go none e k = absurd (cc (ap (λ x. x.0) k))
      go (some out) e k =
          let passed = e ∙ ap some k in
          (
            passed,
            verify_graph_from-IsHeld a.list_projects (suc a.most_projects) id m (pos 0) w u passed,
          )

  -- Where CBM promises another page only in front of the end of the projects it holds, the check is
  -- what the walk over the pages ends with.
  pub check_graph-verify_graph :
      (id : Text) (m : ContextMember) (w : W)
      → IsFinite a.list_projects a.most_projects
      → verify_graph a.list_projects (suc a.most_projects) id m w ≡ some (check_graph a id m w)
  unfolding check_graph
  check_graph-verify_graph id m w fin =
      let e = verify_graph-IsEnded a.list_projects a.most_projects id m w fin in
      e.ended ∙ ap (λ o. some (walked a id m w o)) (sym e.ended)

  verify_member-IsVerified :
      (id : Text) (m : ContextMember) (dir worktree : Text) (w u : W)
      → repository_dir a.root m.repository ≡ ok dir
      → worktree_dir a.root m.repository id ≡ ok worktree
      → verify_member a id m dir worktree w ≡ (ok tt, u)
      → IsVerified id m w u
  unfolding verify_member verify_source verify_search_ref
  verify_member-IsVerified id m dir worktree w u c d h =
      let (x1, w1, resolved, after1) = bind-eq-ok (verify_commit a dir id m) _ w h in
      let (x2, w2, sourced, after2) = bind-eq-ok (verify_source a worktree id m) _ w1 after1 in
      let (x3, w3, searched, graph) = bind-eq-ok (verify_search_ref a dir id m) _ w2 after2 in
      let (y, v, ref, last) = bind-eq-ok (verify_ref a dir id m) _ w2 searched in
      let (paths, v', found, one) = bind-eq-ok (repository_shards a m.repository) _ v last in
      let (some_index, there) = some_shard-ok id m paths v' w3 one in
      let (entries, indexed, same) = repository_shards-ok m.repository paths v v' found in
      record {
        dir = dir;
        clone = c;
        worktree = worktree;
        checkout = d;
        after_commit = w1;
        commit =
            asked_for-ok (rev_parse a.git dir m.revision) (λ f. lost_revision id m) m
              (member_details id m) w w1 resolved;
        after_head = w2;
        head =
            asked_for-ok (head_of a worktree) (λ f. Vacerr.wrapped f) m (member_details id m) w1 w2
              sourced;
        after_ref = v;
        ref =
            asked_for-ok (ref_of a dir m) (λ f. unavailable id m) m
              (member_details id m ++ (codes "branch", Vacerr.text m.branch) ∷ []) w2 v ref;
        after_shards = w3;
        entries = entries;
        indexed = indexed ∙ ap (λ z. (ok entries, z)) there;
        shard =
            shards_of-HasShard (index_dir a) m.repository entries (λ e. some_index (sym same ∙ e));
        asked = (check_graph-IsHeld id m w3 u graph).0;
        graph = (check_graph-IsHeld id m w3 u graph).1;
      }

  -- The members one after another.
  pub data AllVerified (id : Text) : List ContextMember → W → W → Type 0 where
    all : {w : W} → AllVerified id [] w w
    first :
        {m : ContextMember} {ms : List ContextMember} {w v u : W}
        → IsVerified id m w v
        → AllVerified id ms v u
        → AllVerified id (m ∷ ms) w u

  verify_members-AllVerified :
      (id : Text) (ms : List ContextMember) (w u : W)
      → verify_members a id ms w ≡ (ok tt, u)
      → AllVerified id ms w u
  unfolding verify_members
  verify_members-AllVerified id [] w u h =
      subst (AllVerified id [] w) (ap (λ x. x.1) h) AllVerified.all
  verify_members-AllVerified id (m ∷ rest) w u h =
      let (dir, c, next) = lift-bind-eq-ok (repository_dir a.root m.repository) _ w h in
      let (worktree, d, more) = lift-bind-eq-ok (worktree_dir a.root m.repository id) _ w next in
      let (x, v, one, later) = bind-eq-ok (verify_member a id m dir worktree) _ w more in
      AllVerified.first (verify_member-IsVerified id m dir worktree w v c d one)
        (verify_members-AllVerified id rest v u later)

  -- A context that passes its verification has, for each member in turn, a clone that resolves the
  -- pinned revision to itself, a worktree whose HEAD it is, a search ref that points at it, a
  -- file in the index, and a graph that CBM listed; each is pinned at a full SHA and carries exactly the names that the
  -- context's own name, the repository and that SHA generate.
  pub verify_context-AllVerified :
      (c : Context) (w u : W)
      → verify_context a c w ≡ (ok tt, u)
      → AllVerified c.id c.members w u × All (IsGenerated (is_several c.members) c.id) c.members
  unfolding verify_context
  verify_context-AllVerified c w u h =
      let (x, v, members, identity) = bind-eq-ok (verify_members a c.id c.members) _ w h in
      let there : v ≡ u = ap (λ z. z.1) identity in
      (
        subst (AllVerified c.id c.members w) there
            (verify_members-AllVerified c.id c.members w v members),
        (verify_identity_iff c).0 (ap (λ z. z.0) identity),
      )
