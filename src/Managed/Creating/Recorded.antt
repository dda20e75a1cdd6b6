-- ===== src/Managed/Creating/Recorded.antt =====
-- A create, from its locks to the record it leaves.
use version_aware_code_mcp.Prelude.{
  ℕ, Text, List, [], ◌∷◌, true, false, ◌≡◌, inl, inr, refl, sym, ap, ◌∙◌, arith, codes, text_eq,
  contains, Bool-cases,
}
use version_aware_code_mcp.Vacerr.{Failure}
use version_aware_code_mcp.Effect.{Result, ok, err, ◌>>=◌, bind-eq-ok, lift-bind-eq-ok}
use version_aware_code_mcp.Engine.Scope.{pure-eq}
use version_aware_code_mcp.Store
use version_aware_code_mcp.Files.{working}
use version_aware_code_mcp.Store.{
  Context, ContextMember, ContextRecord, Disk, put_context, validate_name, check_members, and_then,
  written,
}
use version_aware_code_mcp.Managed.{in_state, advances, context_resolving}
use version_aware_code_mcp.Managed.Building.{IsFileable, filed_in, advance-files}
use version_aware_code_mcp.Managed.Locks.{holding, lock_names, with_repository_locks}
use version_aware_code_mcp.Managed.Locks.Order.{
  AreTaken, holding-ok, with_repository_locks-AreTaken,
}
use version_aware_code_mcp.Managed.Plane.{State, Plane, on_contexts, ManagedContext, context_of}
use version_aware_code_mcp.Managed.Creating.{
  Pin, check_pins, pinned_repositories, named_record, build, resolve_pins, advanced, unless_managed,
  record_and_build, create_locked, create_pins, create,
}
use version_aware_code_mcp.Managed.Creating.Created.{
  ArePinned, resolve_pins-ArePinned, IsReady, build-IsReady,
}

written-fileable :
    (r : Result (Unit {0})) (name : Text) (c : ContextRecord) (disk d : Disk)
    → written working r name c disk ≡ (ok tt, d)
    → r ≡ ok tt
written-fileable (ok _) name c disk d h = refl
written-fileable (err f) name c disk d h = absurd (cc (ap (λ x. x.0) h))

pub put_context-IsFileable :
    (now : ℕ) (c : Context) (disk d : Disk)
    → put_context working now c disk ≡ (ok tt, d)
    → IsFileable c
unfolding put_context
put_context-IsFileable now c disk d h = written-fileable _ _ _ _ _ h

module _ {W : Type 0} (p : Plane W) (now : ℕ) where
  advanced-files :
      (next : Text) (c : Context) (s : State W)
      → IsFileable c
      → advances c.state next ≡ true
      → advanced p now next c s
        ≡ (ok (in_state next c), record s { contexts = filed_in now next c s.contexts })
  advanced-files next c s f a = rw (advance-files now next c s.contexts f a) refl

  record_and_build-IsReady :
      (id : Text) (members : List ContextMember) (s t : State W) (c : Context)
      → record_and_build p now id members s ≡ (ok c, t)
      → IsReady p now (in_state context_resolving (named_record id members)) t c
  unfolding record_and_build named_record advances text_eq
  record_and_build-IsReady id members s t c h =
      let n = named_record id members in
      let (x, v, put, next) = bind-eq-ok (on_contexts (put_context working now n)) _ s h in
      let f =
        put_context-IsFileable now n s.contexts v.contexts
          (λ i. (ap (λ z. z.0) put i, ap (λ z. z.1.contexts) put i)) in
      let (r, u, moved, last) = bind-eq-ok (advanced p now context_resolving n) _ v next in
      let same : in_state context_resolving n ≡ r =
        ground (arith, ap (λ z. z.0) (sym (advanced-files context_resolving n v f refl) ∙ moved)) in
      build-IsReady p now (in_state context_resolving n) u t c refl f
        (ap (λ y. build p now y u) same ∙ last)

  -- What has been done under the locks.
  pub record IsMade (id : Text) (pins : List Pin) (s t : State W) (c : Context) : Type 0 where
    pub unread : Failure
    pub fresh : Store.context id s.contexts ≡ err unread
    pub members : List ContextMember
    pub resolved : State W
    pub pinned : ArePinned p now pins s members resolved
    pub ready : IsReady p now (in_state context_resolving (named_record id members)) t c

  create_locked-IsMade :
      (id : Text) (pins : List Pin) (s t : State W) (c : Context)
      → create_locked p now id pins s ≡ (ok c, t)
      → IsMade id pins s t c
  unfolding create_locked
  create_locked-IsMade id pins s t c h = go (Store.context id s.contexts) refl h
    where
      go :
          (known : Result Context)
          → Store.context id s.contexts ≡ known
          → (unless_managed p now id known >>= λ _.
                resolve_pins p now pins >>= λ members. record_and_build p now id members)
              s
            ≡ (ok c, t)
          → IsMade id pins s t c
      go (ok x) e k = absurd (cc (ap (λ z. z.0) k))
      go (err f) e k =
          let (members, v, resolved, last) = bind-eq-ok (resolve_pins p now pins) _ s k in
          record {
            unread = f;
            fresh = e;
            members = members;
            resolved = v;
            pinned = resolve_pins-ArePinned p now pins s v members resolved;
            ready = record_and_build-IsReady id members v t c last;
          }

  -- What a create has done. The management lock led to the state `held`, and the locks of its
  -- repositories from there to `start`: in that state the id was not one that reads, each ref became
  -- a commit, and the context was built, which led to `last`; then the locks were given back.
  pub record IsCreated (id : Text) (pins : List Pin) (s u : State W) (r : ManagedContext)
      : Type 0 where
    pub checked : check_pins p.root id [] pins ≡ ok tt
    pub undotted : contains (codes "..") id ≡ false
    pub held : State W
    pub management : p.locks.hold_management (codes "context create") s ≡ (ok tt, held)
    pub context : Context
    pub start : State W
    pub last : State W
    pub before_release : State W
    pub locked :
        AreTaken p.locks (lock_names (pinned_repositories pins)) held start last before_release
    pub let_go : p.locks.release_management before_release ≡ u
    pub made : IsMade id pins start last context
    pub reported : r ≡ context_of context

  create_pins-IsCreated :
      (id : Text) (pins : List Pin) (s u : State W) (r : ManagedContext)
      → create_pins p now id pins s ≡ (ok r, u)
      → IsCreated id pins s u r
  create_pins-IsCreated id pins s u r h =
      let (x, checked, next) = lift-bind-eq-ok (check_pins p.root id [] pins) _ s h in
      elim (Bool-cases (contains (codes "..") id)) [
        | inl dotted ↦ absurd (cc (ap (λ z. z.0) (rw dotted at next)))
        | inr plain ↦
            let (c, v, got, done) =
              bind-eq-ok
                (holding (p.locks.hold_management (codes "context create"))
                  p.locks.release_management
                  (with_repository_locks p.locks (pinned_repositories pins)
                    (create_locked p now id pins)))
                _ s (rw plain at next) in
            let (held, before, management, inner, back) =
              holding-ok p.locks (p.locks.hold_management (codes "context create"))
                p.locks.release_management
                (with_repository_locks p.locks (pinned_repositories pins)
                  (create_locked p now id pins))
                s v c got in
            let (start, last, around, ran) =
              with_repository_locks-AreTaken p.locks (pinned_repositories pins)
                (create_locked p now id pins) held before c inner in
            pure-eq (λ x y. IsCreated id pins s y x) done
              (record {
                checked = checked;
                undotted = plain;
                held = held;
                management = management;
                context = c;
                start = start;
                last = last;
                before_release = before;
                locked = around;
                let_go = back;
                made = create_locked-IsMade id pins start last c ran;
                reported = refl;
              })
      ]

  -- A create that succeeds held the management lock and the locks of its repositories around all
  -- that it did: no record of the id could be read, each pin's repository was managed and git named a
  -- full SHA for its ref in that clone, and the record of exactly those revisions, under the names
  -- generated from them, ended READY, on disk too.
  pub create-IsCreated :
      (id : Text) (pins : List Pin) (s u : State W) (r : ManagedContext)
      → create p now id pins s ≡ (ok r, u)
      → IsCreated id pins s u r
  unfolding create
  create-IsCreated id [] s u r h = absurd (cc (ap (λ z. z.0) h))
  create-IsCreated id (pin ∷ rest) s u r h = create_pins-IsCreated id (pin ∷ rest) s u r h
