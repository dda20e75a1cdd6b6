-- ===== src/Managed/Repositories/Dependents.antt =====
-- A repository is removed only where no context depends on it.
use version_aware_code_mcp.Prelude.{
  ℕ, Text, List, [], ◌∷◌, Option, none, some, false, ◌≡◌, inl, inr, refl, sym, ap, subst, ◌∙◌,
  arith, codes, text_eq, text_eq_iff, Bool-cases, In, sort_by, In-sort_by,
}
use version_aware_code_mcp.Effect.{Result, ok, err, bind-eq-ok, lift-bind-eq-ok}
use version_aware_code_mcp.Config.{lookup}
use version_aware_code_mcp.Store
use version_aware_code_mcp.Store.{
  Context, ContextMember, ContextRecord, Disk, unmarshal, as_valid_record, decoded, and_then,
  validate_name,
}
use version_aware_code_mcp.Store.Repositories.{
  Repository, Repositories, remove_entry, repository, delete_repository, known, unknown_repository,
  in_file_order, one_more, decode_all, contexts,
}
use version_aware_code_mcp.Managed.Plane.{State, Plane, on_world}
use version_aware_code_mcp.Managed.Repositories.{
  is_member, dependents, ids_of, contexts_of, delete_clone, remove_locked,
}

decode_all-In :
    (id : Text) (r : ContextRecord) (disk : Disk) (cs : List Context) (c : Context)
    → decode_all disk ≡ ok cs
    → In (id, r) disk
    → as_valid_record (unmarshal r) ≡ ok c
    → In c cs
unfolding decode_all
decode_all-In id r [] cs c h i k = absurd i.1
decode_all-In id r ((n, x) ∷ rest) cs c h i k =
    go (λ ds l j. decode_all-In id r rest ds c l j k) (as_valid_record (unmarshal x)) refl
      (decode_all rest) refl h i
  where
    go :
        ((ds : List Context) → decode_all rest ≡ ok ds → In (id, r) rest → In c ds)
        → (one : Result Context) → as_valid_record (unmarshal x) ≡ one
        → (more : Result (List Context)) → decode_all rest ≡ more
        → one_more one more ≡ ok cs
        → In (id, r) ((n, x) ∷ rest)
        → In c cs
    go later (err f) e more l s j = absurd (cc)
    go later (ok d) e (err f) l s j = absurd (cc)
    go later (ok d) e (ok ds) l s (inl q) =
        let same : ok c ≡ ok d = sym k ∙ ap (λ z. as_valid_record (unmarshal z.1)) q ∙ e in
        let all : d ∷ ds ≡ cs = ground (arith, s) in
        let first : c ≡ d = ground (arith, same) in subst (In c) all (inl first)
    go later (ok d) e (ok ds) l s (inr j) =
        let all : d ∷ ds ≡ cs = ground (arith, s) in subst (In c) all (inr (later ds l j))

lookup-In :
    (id : Text) (disk : Disk) (r : ContextRecord) → lookup id disk ≡ some r → In (id, r) disk
unfolding lookup
lookup-In id [] r h = absurd (cc)
lookup-In id ((n, x) ∷ rest) r h = elim (Bool-cases (text_eq n id)) [
  | inl e ↦
      let name : n ≡ id = (text_eq_iff n id).0 e in
      let same : x ≡ r = ground (arith, rw e at h) in inl (λ i. (sym name i, sym same i))
  | inr e ↦ inr (lookup-In id rest r (rw e at h))
]

context-In :
    (id : Text) (disk : Disk) (c : Context)
    → Store.context id disk ≡ ok c
    → (r : ContextRecord) × In (id, r) disk × (as_valid_record (unmarshal r) ≡ ok c)
unfolding Store.context
context-In id disk c h = go (validate_name (codes "context") id) (lookup id disk) refl h
  where
    go :
        (v : Result (Unit {0})) (o : Option ContextRecord)
        → lookup id disk ≡ o
        → and_then v (decoded id o) ≡ ok c
        → (r : ContextRecord) × In (id, r) disk × (as_valid_record (unmarshal r) ≡ ok c)
    go (err f) o l k = absurd (cc)
    go (ok _) none l k = absurd (cc)
    go (ok _) (some r) l k = (r, lookup-In id disk r l, k)

dependents-free :
    (name : Text) (cs : List Context) (c : Context)
    → dependents name cs ≡ []
    → In c cs
    → is_member name c ≡ false
unfolding dependents
dependents-free name [] c h i = absurd i.1
dependents-free name (d ∷ cs) c h i = elim (Bool-cases (is_member name d)) [
  | inl e ↦ absurd (cc (rw e at h))
  | inr e ↦ elim i [
    | inl q ↦ ap (is_member name) q ∙ e
    | inr j ↦ dependents-free name cs c (rw e at h) j
  ]
]

-- Where nothing depends on a repository, no context that can be read has it as a member.
contexts_of-free :
    (name id : Text) (disk : Disk) (c : Context)
    → contexts_of name disk ≡ ok []
    → Store.context id disk ≡ ok c
    → is_member name c ≡ false
unfolding contexts_of contexts
contexts_of-free name id disk c h k = go (decode_all (sort_by in_file_order disk)) refl h
  where
    go :
        (all : Result (List Context))
        → decode_all (sort_by in_file_order disk) ≡ all
        → ids_of name all ≡ ok []
        → is_member name c ≡ false
    go (err f) e l = absurd (cc)
    go (ok cs) e l =
        let (r, i, reads) = context-In id disk c k in
        let none_ : dependents name cs ≡ [] = ground (arith, l) in
        dependents-free name cs c none_ (
          decode_all-In id r (sort_by in_file_order disk) cs c e
            ((In-sort_by in_file_order (id, r) disk).1 i) reads)

lookup-remove_entry :
    (name : Text) (disk : Repositories) → lookup name (remove_entry name disk) ≡ none
unfolding lookup remove_entry
lookup-remove_entry name [] = refl
lookup-remove_entry name ((k, r) ∷ rest) = elim (Bool-cases (text_eq k name)) [
  | inl e ↦ rw e (lookup-remove_entry name rest)
  | inr e ↦ rw (e, e) (lookup-remove_entry name rest)
]

delete_repository-gone :
    (name : Text) (disk after : Repositories)
    → delete_repository name disk ≡ (ok tt, after)
    → repository name after ≡ err (unknown_repository name)
unfolding delete_repository repository
delete_repository-gone name disk after h =
    go (validate_name (codes "repository") name) refl (lookup name disk) h
  where
    go :
        (v : Result (Unit {0}))
        → validate_name (codes "repository") name ≡ v
        → (o : Option Repository) → Store.Repositories.forgotten v name o disk ≡ (ok tt, after)
        → and_then (validate_name (codes "repository") name) (known name (lookup name after))
          ≡ err (unknown_repository name)
    go (err f) e o k = absurd (cc (ap (λ z. z.0) k))
    go (ok _) e none k = absurd (cc (ap (λ z. z.0) k))
    go (ok _) e (some r) k =
        let there : after ≡ remove_entry name disk = sym (ap (λ z. z.1) k) in
        rw (e, there, lookup-remove_entry name disk) refl

module _ {W : Type 0} (p : Plane W) (now : ℕ) where
  -- What the removal of a repository has found, and left.
  pub record IsFreed (name : Text) (s t : State W) : Type 0 where
    pub managed : Repository
    pub found : repository name s.repositories ≡ ok managed
    pub unused :
        (id : Text) (c : Context) → Store.context id s.contexts ≡ ok c → is_member name c ≡ false
    pub contexts_kept : t.contexts ≡ s.contexts
    pub gone : repository name t.repositories ≡ err (unknown_repository name)

  delete_clone-gone :
      (name path : Text) (ids : List Text) (s t : State W)
      → delete_clone p now name path ids s ≡ (ok tt, t)
      → (ids ≡ [])
        × (t.contexts ≡ s.contexts)
        × (repository name t.repositories ≡ err (unknown_repository name))
  delete_clone-gone name path (id ∷ rest) s t h = absurd (cc (ap (λ z. z.0) h))
  delete_clone-gone name path [] s t h =
      let (x, v, deleted, last) = bind-eq-ok (on_world (p.remove_all path)) _ s h in
      (
        refl,
        sym (ap (λ z. z.1.contexts) last) ∙ sym (ap (λ z. z.1.contexts) deleted),
        delete_repository-gone name v.repositories t.repositories
            (λ i. (ap (λ z. z.0) last i, ap (λ z. z.1.repositories) last i)),
      )

  -- A repository that is removed was managed, no context that could be read had it as a member, the
  -- records of contexts are untouched, and its own record is gone.
  pub remove_locked-IsFreed :
      (name path : Text) (s t : State W)
      → remove_locked p now name path s ≡ (ok tt, t)
      → IsFreed name s t
  unfolding remove_locked
  remove_locked-IsFreed name path s t h =
      let (r, found, next) = lift-bind-eq-ok (repository name s.repositories) _ s h in
      let (ids, listed, last) = lift-bind-eq-ok (contexts_of name s.contexts) _ s next in
      let (none_, kept, gone) = delete_clone-gone name path ids s t last in
      record {
        managed = r;
        found = found;
        unused = λ id c reads. contexts_of-free name id s.contexts c (listed ∙ ap ok none_) reads;
        contexts_kept = kept;
        gone = gone;
      }
