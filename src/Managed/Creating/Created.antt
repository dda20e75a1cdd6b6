-- ===== src/Managed/Creating/Created.antt =====
-- What a create that succeeds has recorded and built.
use version_aware_code_mcp.Prelude.{
  ℕ, Text, List, [], ◌∷◌, ◌++◌, ◌==◌, ==_iff, ◌≡◌, inl, inr, refl, sym, ap, ◌∙◌, arith, codes,
  length, Bool-cases,
}
use version_aware_code_mcp.Vacerr.{Failure}
use version_aware_code_mcp.Effect.{ok, err, Effect, bind-eq-ok, lift-bind-eq-ok}
use version_aware_code_mcp.Resolver.Resolution.{handle-cases}
use version_aware_code_mcp.Engine.Scope.{pure-eq}
use version_aware_code_mcp.Store
use version_aware_code_mcp.Store.{
  Context, ContextMember, Disk, put_context, validate_name, check_members, and_then,
}
use version_aware_code_mcp.Store.Repositories.{Repository, repository, repository_dir}
use version_aware_code_mcp.Managed.{
  Stage, in_state, build_context, context_resolving, context_ready,
}
use version_aware_code_mcp.Managed.Building.{
  IsFileable, Ran, all_ran, failed, ran, build_context-IsBuilt,
}
use version_aware_code_mcp.Managed.Naming.{full_sha, rev_parse, full_or_fail, resolve_revision}
use version_aware_code_mcp.Managed.Plane.{State, Plane, on_world}
use version_aware_code_mcp.Managed.Creating.{
  Pin, bare_member, outcome_of, build, resolve_pin, resolve_pins,
}

module _ {W : Type 0} (git : List Text → Effect W Text) where
  -- A ref that git names a commit for, as it is or as a branch of the remote.
  pub data IsNamed (dir ref : Text) (w : W) (revision : Text) (v : W) : Type 0 where
    as_given : rev_parse git dir ref w ≡ (ok revision, v) → IsNamed dir ref w revision v
    as_remote :
        {f : Failure} {x : W}
        → rev_parse git dir ref w ≡ (err f, x)
        → rev_parse git dir (codes "origin/" ++ ref) x ≡ (ok revision, v)
        → IsNamed dir ref w revision v

  full_or_fail-ok :
      (found revision : Text) (w v : W)
      → full_or_fail git found w ≡ (ok revision, v)
      → (length revision ≡ full_sha) × (found ≡ revision) × (w ≡ v)
  full_or_fail-ok found revision w v h = elim (Bool-cases (length found == full_sha)) [
    | inr short ↦ absurd (cc (ap (λ x. x.0) (rw short at h)))
    | inl full ↦
        let same : found ≡ revision = ground (arith, ap (λ x. x.0) (rw full at h)) in
        (
          ap length (sym same) ∙ (==_iff (length found) full_sha).0 full,
          same,
          ap (λ x. x.1) (rw full at h),
        )
  ]

  resolve_revision-IsNamed :
      (dir name ref revision : Text) (w v : W)
      → resolve_revision git dir name ref w ≡ (ok revision, v)
      → (length revision ≡ full_sha) × IsNamed dir ref w revision v
  unfolding resolve_revision
  resolve_revision-IsNamed dir name ref revision w v h =
      elim (handle-cases (rev_parse git dir ref w) _ _ h) [
        | inl (found, x, e, k) ↦
            let (full, same, there) = full_or_fail-ok found revision x v k in
            (full, IsNamed.as_given (e ∙ λ i. (ok (same i), there i)))
        | inr (f, x, e, k) ↦
            elim (handle-cases (rev_parse git dir (codes "origin/" ++ ref) x) _ _ k) [
              | inl (found, y, e', k') ↦
                  let (full, same, there) = full_or_fail-ok found revision y v k' in
                  (full, IsNamed.as_remote e (e' ∙ λ i. (ok (same i), there i)))
              | inr (f', y, e', k') ↦ absurd (cc (ap (λ z. z.0) k'))
            ]
      ]

module _ {W : Type 0} (p : Plane W) (now : ℕ) where
  -- A pin whose repository is managed, and whose ref git named a commit for in its clone.
  pub record IsPinned (pin : Pin) (s : State W) (m : ContextMember) (t : State W) : Type 0 where
    pub managed : Repository
    pub found : repository pin.repository s.repositories ≡ ok managed
    pub dir : Text
    pub clone : repository_dir p.root pin.repository ≡ ok dir
    pub revision : Text
    pub full : length revision ≡ full_sha
    pub named : IsNamed p.git dir pin.ref s.world revision t.world
    pub same_records : t ≡ record s { world = t.world }
    pub member : m ≡ bare_member pin revision

  resolve_pin-IsPinned :
      (pin : Pin) (s t : State W) (m : ContextMember)
      → resolve_pin p now pin s ≡ (ok m, t)
      → IsPinned pin s m t
  unfolding resolve_pin
  resolve_pin-IsPinned pin s t m h =
      let (r, found, next) = lift-bind-eq-ok (repository pin.repository s.repositories) _ s h in
      let (dir, clone, last) = lift-bind-eq-ok (repository_dir p.root pin.repository) _ s next in
      let (revision, u, resolved, done) =
        bind-eq-ok (on_world (resolve_revision p.git dir pin.repository pin.ref)) _ s last in
      let world : resolve_revision p.git dir pin.repository pin.ref s.world
          ≡ (ok revision, u.world) =
        λ i. (ap (λ x. x.0) resolved i, ap (λ x. x.1.world) resolved i) in
      let (full, named) =
        resolve_revision-IsNamed p.git dir pin.repository pin.ref revision s.world u.world world in
      let kept : u ≡ record s { world = u.world } =
        sym (ap (λ x. x.1) resolved)
        ∙ ap (λ v. record s { world = v }) (ap (λ x. x.1.world) resolved) in
      pure-eq (λ x y. IsPinned pin s x y) done
        (record {
          managed = r;
          found = found;
          dir = dir;
          clone = clone;
          revision = revision;
          full = full;
          named = named;
          same_records = kept;
          member = refl;
        })

  -- The pins one after another.
  pub data ArePinned : List Pin → State W → List ContextMember → State W → Type 0 where
    none_left : {s : State W} → ArePinned [] s [] s
    one_more :
        {pin : Pin} {pins : List Pin} {m : ContextMember} {ms : List ContextMember}
        {s v t : State W}
        → IsPinned pin s m v
        → ArePinned pins v ms t
        → ArePinned (pin ∷ pins) s (m ∷ ms) t

  pub resolve_pins-ArePinned :
      (pins : List Pin) (s t : State W) (ms : List ContextMember)
      → resolve_pins p now pins s ≡ (ok ms, t)
      → ArePinned pins s ms t
  unfolding resolve_pins
  resolve_pins-ArePinned [] s t ms h = pure-eq (λ x y. ArePinned [] s x y) h ArePinned.none_left
  resolve_pins-ArePinned (pin ∷ rest) s t ms h =
      let (m, v, one, next) = bind-eq-ok (resolve_pin p now pin) _ s h in
      let (later, u, all, done) = bind-eq-ok (resolve_pins p now rest) _ v next in
      pure-eq (λ x y. ArePinned (pin ∷ rest) s x y) done
        (ArePinned.one_more (resolve_pin-IsPinned pin s v m one)
          (resolve_pins-ArePinned rest v u later all))

  Ran-ready :
      {stages : List (Stage W)} {c : Context} {disk : Disk} {w u : W} {errors : List Failure}
      {state : Text}
      → Ran now stages c disk w errors state u
      → errors ≡ []
      → state ≡ context_ready
  Ran-ready all_ran e = refl
  Ran-ready (failed r) e = absurd (cc)
  Ran-ready (ran r rest) e = Ran-ready rest e

  -- A build that succeeds leaves the context READY, and its record too.
  pub record IsReady (c : Context) (t : State W) (r : Context) : Type 0 where
    pub kept : r ≡ in_state context_ready c
    pub reads :
        Store.context c.id t.contexts ≡ ok (record c { state = context_ready; updated_at = now })

  pub build-IsReady :
      (c : Context) (s t : State W) (r : Context)
      → c.state ≡ context_resolving
      → IsFileable c
      → build p now c s ≡ (ok r, t)
      → IsReady c t r
  unfolding build
  build-IsReady c s t r resolving f h =
      let b = build_context now p.stages c s.contexts s.world in go b.errors refl h
    where
      go :
          (errors : List Failure)
          → (build_context now p.stages c s.contexts s.world).errors ≡ errors
          → outcome_of s (build_context now p.stages c s.contexts s.world) errors ≡ (ok r, t)
          → IsReady c t r
      go (x ∷ rest) e k = absurd (cc (ap (λ z. z.0) k))
      go [] e k =
          let built = build_context-IsBuilt now p.stages c s.contexts s.world resolving f in
          let ready : built.state ≡ context_ready = Ran-ready built.stages_ran e in
          let same : (build_context now p.stages c s.contexts s.world).context ≡ r =
            ground (arith, ap (λ z. z.0) k) in
          record {
            kept = sym same ∙ built.kept ∙ ap (λ x. in_state x c) ready;
            reads =
                ap (λ z. Store.context c.id z.1.contexts) (sym k)
                ∙ built.reads
                ∙ ap (λ x. ok (record c { state = x; updated_at = now })) ready;
          }
