-- ===== src/Managed/Removing/Removed.antt =====
-- How a removal ends, on every branch.
use version_aware_code_mcp.Prelude.{
  ℕ, Text, List, [], ◌∷◌, Option, none, some, ◌≡◌, ◌≢◌, ◌⊎◌, inl, inr, refl, sym, ap, subst, ◌∙◌,
  codes, text_eq, sort_by, text_leb,
}
use version_aware_code_mcp.Vacerr.{Failure}
use version_aware_code_mcp.Effect.{Result, ok, err, Effect, pure, lift, continue, ◌>>=◌, ◌>>◌}
use version_aware_code_mcp.Config.{lookup}
use version_aware_code_mcp.Store
use version_aware_code_mcp.Files.{working}
use version_aware_code_mcp.Store.{
  Context, ContextMember, Disk, marshal, validate_name, check_members, and_then, remove_record,
  put_context, delete_context, unknown_context, decoded,
}
use version_aware_code_mcp.Store.Repositories.{repository_dir, worktree_dir}
use version_aware_code_mcp.Store.Records.{
  IsFiled, put_context-working, lookup-remove_same, lookup-remove_other,
}
use version_aware_code_mcp.Managed.{in_state, advance, advances, context_removing}
use version_aware_code_mcp.Managed.Plane.{State, Plane, on_world, on_contexts, repositories_of}
use version_aware_code_mcp.Managed.Creating.{advanced}
use version_aware_code_mcp.Managed.Removing.{
  with_paths, drop_ref, take_members_apart, index_each, dismantle, take_apart, remove_locked,
}

module _ {W : Type 0} where
  -- The records of contexts are as they were, however an effect ends.
  Keeps : {A : Type 0} → Effect (State W) A → Type 0
  Keeps m = (s : State W) → (m s).1.contexts ≡ s.contexts

  bind-Keeps :
      {A B : Type 0} (m : Effect (State W) A) (k : A → Effect (State W) B)
      → Keeps m
      → ((a : A) → Keeps (k a))
      → Keeps (m >>= k)
  unfolding Keeps
  bind-Keeps {A = A} m k h f s = go (m s).0 (m s).1 (h s)
    where
      go :
          (r : Result A) (v : State W)
          → v.contexts ≡ s.contexts
          → (continue r v k).1.contexts ≡ s.contexts
      go (ok a) v e = f a v ∙ e
      go (err x) v e = e

  lift-Keeps :
      {A B : Type 0} (r : Result A) (k : A → Effect (State W) B)
      → ((a : A) → Keeps (k a))
      → Keeps (lift r >>= k)
  unfolding Keeps
  lift-Keeps (ok a) k f s = f a s
  lift-Keeps (err x) k f s = refl

module _ {W : Type 0} (p : Plane W) (now : ℕ) where
  with_paths-Keeps :
      (id : Text) (m : ContextMember) (act : Text → Text → Effect W (Unit {0}))
      → Keeps (with_paths p now id m act)
  unfolding Keeps
  with_paths-Keeps id m act =
      lift-Keeps (repository_dir p.root m.repository) _
        (λ dir. lift-Keeps (worktree_dir p.root m.repository id) _ (λ worktree s. refl))

  take_members_apart-Keeps :
      (id : Text) (ms : List ContextMember) → Keeps (take_members_apart p now id ms)
  unfolding take_members_apart Keeps
  take_members_apart-Keeps id [] = λ s. refl
  take_members_apart-Keeps id (m ∷ rest) =
      bind-Keeps _ _
        (with_paths-Keeps id m
          (λ dir worktree. p.discard_source dir worktree id m >> drop_ref p now dir m m.branch))
        (λ _. take_members_apart-Keeps id rest)

  index_each-Keeps : (names : List Text) → Keeps (index_each p now names)
  unfolding index_each Keeps
  index_each-Keeps [] = λ s. refl
  index_each-Keeps (name ∷ rest) =
      bind-Keeps (λ s. on_world (p.index_repository name s.contexts) s) _ (λ s. refl)
        (λ _. index_each-Keeps rest)

  dismantle-Keeps : (c : Context) → Keeps (dismantle p now c)
  dismantle-Keeps c =
      bind-Keeps (take_members_apart p now c.id c.members) _
        (take_members_apart-Keeps c.id c.members)
        (λ _. index_each-Keeps (sort_by text_leb (repositories_of c.members)))

  -- The three ways in which the removal of a record ends: nothing was written, or it stopped with the
  -- record in REMOVING, where a second run takes it up, or the record is gone. Nothing else is
  -- touched in any of them.
  pub data HowRemoved (c : Context) (s t : State W) : Result (Unit {0}) → Type 0 where
    not_begun : {f : Failure} → t.contexts ≡ s.contexts → HowRemoved c s t (err f)
    stopped :
        {f : Failure}
        → Store.context c.id t.contexts
          ≡ ok (record c { state = context_removing; updated_at = now })
        → ((id : Text) → id ≢ c.id → Store.context id t.contexts ≡ Store.context id s.contexts)
        → HowRemoved c s t (err f)
    removed :
        Store.context c.id t.contexts ≡ err (unknown_context c.id)
        → ((id : Text) → id ≢ c.id → Store.context id t.contexts ≡ Store.context id s.contexts)
        → HowRemoved c s t (ok tt)

-- A record that reads is there to be deleted, and deleting it takes away it alone.
delete_context-read :
    (id : Text) (disk : Disk) (c : Context)
    → Store.context id disk ≡ ok c
    → (delete_context id disk ≡ (ok tt, remove_record id disk))
      × (Store.context id (remove_record id disk) ≡ err (unknown_context id))
unfolding delete_context Store.context
delete_context-read id disk c h =
    go (validate_name (codes "context") id) refl (lookup id disk) refl h
  where
    go :
        (v : Result (Unit {0}))
        → validate_name (codes "context") id ≡ v
        → (o : Option Store.ContextRecord) → lookup id disk ≡ o
        → and_then v (decoded id o) ≡ ok c
        → (delete_context id disk ≡ (ok tt, remove_record id disk))
          × (Store.context id (remove_record id disk) ≡ err (unknown_context id))
    go (err f) e o l k = absurd (cc)
    go (ok _) e none l k = absurd (cc)
    go (ok _) e (some r) l k = (rw (e, l) refl, rw (e, lookup-remove_same id disk) refl)

context-remove_other :
    (key id : Text) (disk : Disk)
    → key ≢ id
    → Store.context key (remove_record id disk) ≡ Store.context key disk
unfolding Store.context
context-remove_other key id disk n =
    ap (λ o. and_then (validate_name (codes "context") key) (decoded key o))
      (lookup-remove_other key id disk n)

module _ {W : Type 0} (p : Plane W) (now : ℕ) (c : Context) (s t : State W) where
  take_apart-HowRemoved :
      (u : State W) (r : Result (Unit {0}))
      → IsFiled now (in_state context_removing c) s.contexts u.contexts
      → take_apart p now (in_state context_removing c) u ≡ (r, t)
      → HowRemoved p now c s t r
  unfolding Keeps
  take_apart-HowRemoved u r filed h =
      go (dismantle p now (in_state context_removing c) u).0
        (dismantle p now (in_state context_removing c) u).1
        (dismantle-Keeps p now (in_state context_removing c) u) h
    where
      go :
          (x : Result (Unit {0})) (v : State W)
          → v.contexts ≡ u.contexts
          → continue x v (λ _. on_contexts (delete_context c.id)) ≡ (r, t)
          → HowRemoved p now c s t r
      go (err f) v e k =
          let there : t.contexts ≡ u.contexts = sym (ap (λ z. z.1.contexts) k) ∙ e in
          subst (HowRemoved p now c s t) (ap (λ z. z.0) k) (
            stopped (ap (Store.context c.id) there ∙ filed.reads)
              (λ id n. ap (Store.context id) there ∙ filed.others id n))
      go (ok _) v e k =
          let (deleted, gone) =
            delete_context-read c.id v.contexts
              (record c { state = context_removing; updated_at = now })
              (ap (Store.context c.id) e ∙ filed.reads) in
          let there : t.contexts ≡ remove_record c.id v.contexts =
            sym (ap (λ z. z.1.contexts) k) ∙ ap (λ z. z.1) deleted in
          subst (HowRemoved p now c s t) (sym (ap (λ z. z.0) deleted) ∙ ap (λ z. z.0) k) (
            removed (ap (Store.context c.id) there ∙ gone) (λ id n.
              ap (Store.context id) there
              ∙ context-remove_other id c.id v.contexts n
              ∙ ap (Store.context id) e
              ∙ filed.others id n))

  removing-HowRemoved :
      (r : Result (Unit {0}))
      → (advanced p now context_removing c >>= λ c'. take_apart p now c') s ≡ (r, t)
      → HowRemoved p now c s t r
  unfolding advance advances text_eq
  removing-HowRemoved r h =
      go (put_context working now (in_state context_removing c) s.contexts).0
        (put_context working now (in_state context_removing c) s.contexts).1
        (put_context-working now (in_state context_removing c) s.contexts _ _ refl) h
    where
      go :
          (x : Result (Unit {0})) (d : Disk)
          → ((f : Failure) × (x ≡ err f) × (d ≡ s.contexts))
            ⊎ ((x ≡ ok tt) × IsFiled now (in_state context_removing c) s.contexts d)
          → continue
              (continue x (record s { contexts = d }) (λ _. pure (in_state context_removing c))).0
              (continue x (record s { contexts = d }) (λ _. pure (in_state context_removing c))).1
              (λ c'. take_apart p now c')
            ≡ (r, t)
          → HowRemoved p now c s t r
      go (ok _) d (inl (f, e, same)) k = absurd (cc)
      go (err f) d (inl (g, e, same)) k =
          subst (HowRemoved p now c s t) (ap (λ z. z.0) k)
            (not_begun (sym (ap (λ z. z.1.contexts) k) ∙ same))
      go (err f) d (inr (e, filed)) k = absurd (cc)
      go (ok _) d (inr (e, filed)) k = take_apart-HowRemoved (record s { contexts = d }) r filed k

-- Under the locks, a removal of a context whose record reads ends in one of three ways: nothing was
-- written; or it failed later, with the record readable in REMOVING; or it succeeded, and no context
-- of that name is there. Every other context reads as before in each of them.
pub remove_locked-HowRemoved :
    {W : Type 0} (p : Plane W) (now : ℕ) (id : Text) (c : Context) (s t : State W)
    (r : Result (Unit {0}))
    → Store.context id s.contexts ≡ ok c
    → remove_locked p now id s ≡ (r, t)
    → HowRemoved p now c s t r
unfolding remove_locked
remove_locked-HowRemoved p now id c s t r known h =
    removing-HowRemoved p now c s t r (rw known at h)
