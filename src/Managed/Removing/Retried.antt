-- ===== src/Managed/Removing/Retried.antt =====
-- What a retry that succeeds has built, and from what.
use version_aware_code_mcp.Prelude.{
  ℕ, Text, false, ◌≡◌, ◌≢◌, inl, inr, refl, ap, arith, codes, text_eq, text_eq_iff, Bool-cases,
}
use version_aware_code_mcp.Effect.{ok, Effect, ◌>>=◌, bind-eq-ok, lift-bind-eq-ok}
use version_aware_code_mcp.Engine.Scope.{pure-eq}
use version_aware_code_mcp.Store
use version_aware_code_mcp.Files.{working}
use version_aware_code_mcp.Store.{Context, put_context}
use version_aware_code_mcp.Managed.{in_state, context_resolving, context_ready, context_removing}
use version_aware_code_mcp.Managed.Locks.{holding, lock_names, with_repository_locks}
use version_aware_code_mcp.Managed.Locks.Order.{
  AreTaken, holding-ok, with_repository_locks-AreTaken,
}
use version_aware_code_mcp.Managed.Plane.{
  State, Plane, on_contexts, asking, repositories_of, ManagedContext, context_of,
}
use version_aware_code_mcp.Managed.Creating.Created.{build-IsReady}
use version_aware_code_mcp.Managed.Creating.Recorded.{put_context-IsFileable}
use version_aware_code_mcp.Managed.Removing.{discard_members, is_settled, retry_locked, retry}

settled-apart :
    (c : Context) → is_settled c ≡ false → (c.state ≢ context_ready) × (c.state ≢ context_removing)
settled-apart c h =
    let ready : text_eq c.state context_ready ≡ false = ground (arith, h) in
    let removing : text_eq c.state context_removing ≡ false = ground (arith, h) in
    (λ e. apart c.state context_ready ready e, λ e. apart c.state context_removing removing e)
  where
    apart : (s t : Text) → text_eq s t ≡ false → s ≢ t
    apart s t k e = cc ((text_eq_iff s t).1 e)

module _ {W : Type 0} (p : Plane W) (now : ℕ) where
  -- A context that was in no settled state, and is READY with the members that its record had.
  pub record IsRebuilt (id : Text) (s t : State W) (r : Context) : Type 0 where
    pub context : Context
    pub known : Store.context id s.contexts ≡ ok context
    pub not_ready : context.state ≢ context_ready
    pub not_removing : context.state ≢ context_removing
    pub rebuilt : r ≡ in_state context_ready context
    pub reads :
        Store.context context.id t.contexts
        ≡ ok (record context { state = context_ready; updated_at = now })

  retry_locked-IsRebuilt :
      (id : Text) (s t : State W) (r : Context)
      → retry_locked p now id s ≡ (ok r, t)
      → IsRebuilt id s t r
  unfolding retry_locked
  retry_locked-IsRebuilt id s t r h =
      let (c, known, next) = lift-bind-eq-ok (Store.context id s.contexts) _ s h in
      elim (Bool-cases (is_settled c)) [
        | inl settled ↦ absurd (cc (ap (λ z. z.0) (rw settled at next)))
        | inr unsettled ↦
            let (x, v, discarded, more) =
              bind-eq-ok (discard_members p now c.id c.members) _ s (rw unsettled at next) in
            let (y, u, put, last) =
              bind-eq-ok (on_contexts (put_context working now (in_state context_resolving c))) _ v
                more in
            let f =
              put_context-IsFileable now (in_state context_resolving c) v.contexts u.contexts
                (λ i. (ap (λ z. z.0) put i, ap (λ z. z.1.contexts) put i)) in
            let b = build-IsReady p now (in_state context_resolving c) u t r refl f last in
            let (a, d) = settled-apart c unsettled in
            record {
              context = c;
              known = known;
              not_ready = a;
              not_removing = d;
              rebuilt = b.kept;
              reads = b.reads;
            }
      ]

  -- What a retry has done. The management lock led to the state `held`, and the locks of the
  -- repositories that the record named there led on to `start`, in which the rebuild began.
  pub record IsRetried (id : Text) (s u : State W) (r : ManagedContext) : Type 0 where
    pub held : State W
    pub management : p.locks.hold_management (codes "context retry") s ≡ (ok tt, held)
    pub first_read : Context
    pub was_known : Store.context id held.contexts ≡ ok first_read
    pub context : Context
    pub start : State W
    pub last : State W
    pub before_release : State W
    pub locked :
        AreTaken p.locks
          (lock_names (repositories_of first_read.members))
          held
          start
          last
          before_release
    pub let_go : p.locks.release_management before_release ≡ u
    pub rebuilt : IsRebuilt id start last context
    pub reported : r ≡ context_of context

  -- A retry that succeeds decided again under the locks, from the record as it was there: that was in
  -- a state other than READY and REMOVING, and the context is READY now, on disk too, with exactly
  -- the members that the record had, so that no revision has moved.
  pub retry-IsRetried :
      (id : Text) (s u : State W) (r : ManagedContext)
      → retry p now id s ≡ (ok r, u)
      → IsRetried id s u r
  unfolding retry
  retry-IsRetried id s u r h =
      let body : Effect (State W) Context = asking (λ x. Store.context id x.contexts) >>= λ c.
      with_repository_locks p.locks (repositories_of c.members) (retry_locked p now id) in
      let (c, v, got, done) =
        bind-eq-ok
          (holding (p.locks.hold_management (codes "context retry")) p.locks.release_management
            body)
          _ s h in
      let (held, before, management, inner, back) =
        holding-ok p.locks (p.locks.hold_management (codes "context retry"))
          p.locks.release_management body s v c got in
      let (first, known, under) = lift-bind-eq-ok (Store.context id held.contexts) _ held inner in
      let (start, last, around, ran) =
        with_repository_locks-AreTaken p.locks (repositories_of first.members)
          (retry_locked p now id) held before c under in
      pure-eq (λ x y. IsRetried id s y x) done
        (record {
          held = held;
          management = management;
          first_read = first;
          was_known = known;
          context = c;
          start = start;
          last = last;
          before_release = before;
          locked = around;
          let_go = back;
          rebuilt = retry_locked-IsRebuilt id start last c ran;
          reported = refl;
        })
